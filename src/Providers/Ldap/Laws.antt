-- ===== src/Providers/Ldap/Laws.antt =====
-- providers/ldap.go: a reader of RFC 4514 gets an escaped name back as it was.
use Prim.Native.String.{◌∷◌ as char_cons, ◌++◌ as str_append}
use xal_tor_ka.Base.{
  ℕ, String, Char, code, ◌≡◌, refl, inl, inr, Bool, true, false, not, ◌&&◌, ◌||◌, Option, none,
  some, arith, ◌==◌, eqb, if◌then◌else◌, Bool-cases,
}
use text.Mathlib.TextLemmas.{nil-append, cons-append, append_assoc}
use xal_tor_ka.Providers.Ldap.{is_dn_special, escape_dn_value}

-- The reader below is not code of the program: it is RFC 4514, section 3, for a value written as a
-- string, less the pairs of hexadecimal digits, which it takes as an error.

-- A comma or a plus ends a value, and so does a semicolon, which older readers take for a comma.
abbrev ends_value : ℕ → Bool
ends_value c = eqb c b',' || eqb c b'+' || eqb c b';'

-- A quote, an angle bracket or the character 0 is an error where no backslash stands before it.
abbrev is_illegal : ℕ → Bool
is_illegal c = eqb c b'"' || eqb c b'<' || eqb c b'>' || eqb c 0

-- A backslash takes one of these as it is: the above and the backslash, the space, # and =.
abbrev may_follow : ℕ → Bool
may_follow c =
    ends_value c
    || eqb c b'"'
    || eqb c b'<'
    || eqb c b'>'
    || eqb c b'\\'
    || eqb c b' '
    || eqb c b'#'
    || eqb c b'='

-- What is read of a value, and what stands behind it; none is an error.
abbrev pub Read : Type 0
Read = Option (String × String)

abbrev put : Char → Read → Read
put c none = none
put c (some (value, rest)) = some (char_cons c value, rest)

-- A space is an error where nothing of the value follows it.
abbrev put_space : Char → Read → Read
put_space c none = none
put_space c (some (value, rest)) = if value == "" then none else some (char_cons c value, rest)

-- The characters of a value. The flag says that a backslash came right before.
unfoldable pub read_chars : Bool → String → Read
read_chars true String.[] = none
read_chars false String.[] = some ("", "")
read_chars true (String.◌∷◌ c s) =
    let rest = read_chars false s in if may_follow (code c) then put c rest else none
read_chars false (String.◌∷◌ c s) =
    let escaped = read_chars true s in
    let plain = read_chars false s in
    if eqb (code c) b'\\'
    then escaped
    else if ends_value (code c)
    then some ("", char_cons c s)
    else if is_illegal (code c)
    then none
    else if eqb (code c) b' '
    then put_space c plain
    else put c plain

-- A value begins neither with a space nor with #.
abbrev pub begins_badly : String → Bool
begins_badly String.[] = false
begins_badly (String.◌∷◌ c s) = eqb (code c) b' ' || eqb (code c) b'#'

unfoldable pub read_dn_value : String → Read
read_dn_value s = if begins_badly s then none else read_chars false s

-- The name ends with no space and has no character 0: neither is escaped by the code.
abbrev pub fits_value : String → Bool
fits_value String.[] = true
fits_value (String.◌∷◌ c s) =
    not (eqb (code c) 0) && not (eqb (code c) b' ' && s == "") && fits_value s

special-may_follow : (k : ℕ) → is_dn_special k ≡ true → may_follow k ≡ true
unfolding is_dn_special
special-may_follow k e = ground arith

plain-tests :
    (k : ℕ)
    → is_dn_special k ≡ false
    → eqb k 0 ≡ false
    → (eqb k b'\\' ≡ false) × (ends_value k ≡ false) × (is_illegal k ≡ false)
unfolding is_dn_special
plain-tests k e z = (ground arith, ground arith, ground arith)

read-backslash : (t : String) → read_chars false (str_append "\\" t) ≡ read_chars true t
unfolding read_chars
read-backslash t = rw (cons-append _ "" t, nil-append t) refl

read_chars-plain :
    (c : Char) (s t : String)
    → is_dn_special (code c) ≡ false
    → fits_value (char_cons c s) ≡ true
    → (rest : String) → read_chars false t ≡ some (s, rest)
    → read_chars false (char_cons c t) ≡ some (char_cons c s, rest)
unfolding read_chars
read_chars-plain c s t e fits rest h =
    let zero_not : eqb (code c) 0 ≡ false = ground arith in
    let (a, b, d) = plain-tests (code c) e zero_not in
    rw (a, b, d, h)
      (elim (Bool-cases (eqb (code c) b' ')) [
        | inr k ↦ rw k refl
        | inl k ↦ let more : (s == "") ≡ false = ground arith in rw (k, more) refl
      ])

read_chars-escape :
    (s rest : String)
    → fits_value s ≡ true
    → read_chars false rest ≡ some ("", rest)
    → read_chars false (str_append (escape_dn_value s) rest) ≡ some (s, rest)
unfolding escape_dn_value read_chars
read_chars-escape String.[] rest fits h = rw (nil-append rest) h
read_chars-escape (String.◌∷◌ c s) rest fits h =
    let fits_s : fits_value s ≡ true = ground arith in
    let later = read_chars-escape s rest fits_s h in
    elim (Bool-cases (is_dn_special (code c))) [
      | inl e ↦
          rw
            (
              e,
              append_assoc "\\" (char_cons c (escape_dn_value s)) rest,
              read-backslash,
              cons-append,
            )
            (rw (special-may_follow (code c) e, later) refl)
      | inr e ↦
          rw (e, cons-append)
            (read_chars-plain c s (str_append (escape_dn_value s) rest) e fits rest later)
    ]

begins-escape :
    (s rest : String)
    → begins_badly s ≡ false
    → begins_badly rest ≡ false
    → begins_badly (str_append (escape_dn_value s) rest) ≡ false
unfolding escape_dn_value
begins-escape String.[] rest h k = rw (nil-append rest) k
begins-escape (String.◌∷◌ c s) rest h k = elim (Bool-cases (is_dn_special (code c))) [
  | inl e ↦ rw (e, append_assoc "\\" (char_cons c (escape_dn_value s)) rest, cons-append) refl
  | inr e ↦ rw (e, cons-append) h
]

-- A reader of RFC 4514 gets exactly the name back that a user typed in, and goes on behind it where
-- the template goes on with the end of a value: no such name adds a component to a distinguished
-- name. This is for a name that neither begins with a space or # nor ends with a space, and has no
-- character 0: the standard wants these escaped too, and the code does not escape them.
pub read-escape_dn_value :
    (s rest : String)
    → begins_badly s ≡ false
    → fits_value s ≡ true
    → read_dn_value rest ≡ some ("", rest)
    → read_dn_value (str_append (escape_dn_value s) rest) ≡ some (s, rest)
unfolding read_dn_value
read-escape_dn_value s rest begins fits h = elim (Bool-cases (begins_badly rest)) [
  | inl e ↦ absurd (cc (rw e at h))
  | inr e ↦ rw (begins-escape s rest begins e) (read_chars-escape s rest fits (rw e at h))
]
