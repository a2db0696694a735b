-- ===== src/Handlers/Listing/Laws.antt =====
-- handlers/server.go, groupTiles: every tile stands in the group of its site, in order.
use xal_tor_ka.Base.{
  String, ◌≡◌, refl, sym, ap, ◌∙◌, ◌⊎◌, inl, inr, false, none, some, List, [], ◌∷◌, ◌++◌, arith,
  ◌==◌, eq_iff, if◌then◌else◌, Bool-cases, In, In-append_left, In-append_right, In-append, Distinct,
}
use mathlib.Core.Path.{subst}
use xal_tor_ka.Handlers.Listing.{Tile, TileGroup, add_to_site, add_tile, add_tiles, group_tiles}

-- the sites that have a name
abbrev pub named : List TileGroup → List String
named [] = []
named (g ∷ gs) = if g.site == "" then named gs else g.site ∷ named gs

-- The tile stands in a group of its site.
abbrev pub Holds : Tile → List TileGroup → Type 0
Holds t gs = (g : TileGroup) × In g gs × (g.site ≡ t.site) × In t g.tiles

-- what a list of groups with one more tile keeps
record Added (t : Tile) (gs hs : List TileGroup) : Type 0 where
  holds : Holds t hs
  keeps : (u : Tile) → Holds u gs → Holds u hs

more : Tile → TileGroup → TileGroup
more t g = record g { tiles = g.tiles ++ (t ∷ []) }

more-Added :
    (t : Tile) (g : TileGroup) (gs : List TileGroup)
    → g.site ≡ t.site
    → Added t (g ∷ gs) (more t g ∷ gs)
unfolding more
more-Added t g gs e = record {
  holds = (more t g, inl refl, e, In-append_right t g.tiles (t ∷ []) (inl refl));
  keeps = (λ u (h, i, s, k). elim i [
    | inl q ↦ (
      more t g,
      inl refl,
      ap (λ x. x.site) (sym q) ∙ s,
      In-append_left u g.tiles (t ∷ []) (subst (λ x. In u x.tiles) q k),
    )
    | inr j ↦ (h, inr j, s, k)
  ]);
}

behind-Added :
    (t : Tile) (g : TileGroup) (gs hs : List TileGroup) → Added t gs hs → Added t (g ∷ gs) (g ∷ hs)
behind-Added t g gs hs a = record {
  holds = let (h, i, s, k) = a.holds in (h, inr i, s, k);
  keeps = (λ u (h, i, s, k). elim i [
    | inl q ↦ (h, inl q, s, k)
    | inr j ↦ let (h', i', s', k') = a.keeps u (h, j, s, k) in (h', inr i', s', k')
  ]);
}

find-cases :
    (t : Tile) (gs : List TileGroup)
    → ((add_to_site t gs ≡ none) × ((g : TileGroup) → In g gs → (g.site == t.site) ≡ false))
      ⊎ ((hs : List TileGroup) × (add_to_site t gs ≡ some hs)
          × (named hs ≡ named gs)
          × Added t gs hs)
unfolding add_to_site more
find-cases t [] = inl (refl, (λ g i. elim i [ ]))
find-cases t (g ∷ gs) = elim (Bool-cases (g.site == t.site)) [
  | inl e ↦ inr (more t g ∷ gs, rw e refl, refl, more-Added t g gs ((eq_iff g.site t.site).0 e))
  | inr e ↦ elim (find-cases t gs) [
    | inl (q, f) ↦
        inl (rw (e, q, add_to_site) refl, (λ h i. elim i [ inl k ↦ rw k e | inr j ↦ f h j ]))
    | inr (hs, q, k, a) ↦
        inr (g ∷ hs, rw (e, q, add_to_site) refl, ground arith, behind-Added t g gs hs a)
  ]
]

alone : Tile → TileGroup
alone t = record { site = t.site; tiles = t ∷ [] }

end-Added : (t : Tile) (gs : List TileGroup) → Added t gs (gs ++ (alone t ∷ []))
unfolding alone
end-Added t gs = record {
  holds = (alone t, In-append_right (alone t) gs (alone t ∷ []) (inl refl), refl, inl refl);
  keeps = (λ u (h, i, s, k). (h, In-append_left h gs (alone t ∷ []) i, s, k));
}

named-In :
    (gs : List TileGroup) (site : String)
    → In site (named gs)
    → (g : TileGroup) × In g gs × (g.site ≡ site)
named-In [] site i = elim i [ ]
named-In (g ∷ gs) site i = elim (Bool-cases (g.site == "")) [
  | inl e ↦ let (h, j, s) = named-In gs site (rw e at i) in (h, inr j, s)
  | inr e ↦ elim (rw e at i) [
    | inl q ↦ (g, inl refl, sym q)
    | inr j ↦ let (h, j', s) = named-In gs site j in (h, inr j', s)
  ]
]

named-append : (xs ys : List TileGroup) → named (xs ++ ys) ≡ named xs ++ named ys
named-append [] ys = refl
named-append (x ∷ xs) ys = elim (Bool-cases (x.site == "")) [
  | inl e ↦ rw e (named-append xs ys)
  | inr e ↦ rw e (ap (λ l. x.site ∷ l) (named-append xs ys))
]

end-Distinct :
    (ns : List String) (n : String) → Distinct ns → (¬ In n ns) → Distinct (ns ++ (n ∷ []))
end-Distinct [] n d f = ((λ i. elim i [ ]), tt)
end-Distinct (x ∷ ns) n (fresh, d) f = (
  (λ i. elim (In-append x ns (n ∷ []) i) [
    | inl k ↦ fresh k
    | inr (inl e) ↦ f (inl (sym e))
    | inr (inr k) ↦ elim k [ ]
  ]),
  end-Distinct ns n d (λ i. f (inr i)),
)

add_tile-Distinct :
    (t : Tile) (gs : List TileGroup) → Distinct (named gs) → Distinct (named (add_tile gs t))
unfolding add_tile
add_tile-Distinct t gs d = elim (Bool-cases (t.site == "")) [
  | inl e ↦ rw e (
      subst (λ l. Distinct l)
        (sym (named-append gs (record { site = ""; tiles = t ∷ [] } ∷ []) ∙ append-none (named gs)))
        d)
  | inr e ↦ elim (find-cases t gs) [
    | inr (hs, q, k, a) ↦ rw (e, q, add_tile) (subst (λ l. Distinct l) (sym k) d)
    | inl (q, f) ↦
        rw (e, q, add_tile)
          (subst (λ l. Distinct l)
            (sym (named-append gs (record { site = t.site; tiles = t ∷ [] } ∷ [])))
            (rw e (
              end-Distinct (named gs) t.site d (λ i.
                let (g, j, s) = named-In gs t.site i in cc (f g j, (eq_iff g.site t.site).1 s)))))
  ]
]
  where
    append-none : (l : List String) → l ++ [] ≡ l
    append-none [] = refl
    append-none (x ∷ l) = ap (λ r. x ∷ r) (append-none l)

add_tile-Added : (t : Tile) (gs : List TileGroup) → Added t gs (add_tile gs t)
unfolding add_tile alone
add_tile-Added t gs = elim (Bool-cases (t.site == "")) [
  | inl e ↦ rw e (
      subst (λ x. Added t gs (gs ++ (record { site = x; tiles = t ∷ [] } ∷ [])))
        ((eq_iff t.site "").0 e) (end-Added t gs))
  | inr e ↦ elim (find-cases t gs) [
    | inl (q, f) ↦ rw (e, q, add_tile) (end-Added t gs)
    | inr (hs, q, k, a) ↦ rw (e, q, add_tile) a
  ]
]

add_tiles-Holds :
    (ts : List Tile) (gs : List TileGroup)
    → ((u : Tile) → In u ts → Holds u (add_tiles gs ts))
      × ((u : Tile) → Holds u gs → Holds u (add_tiles gs ts))
unfolding add_tiles
add_tiles-Holds [] gs = ((λ u i. elim i [ ]), (λ u h. h))
add_tiles-Holds (t ∷ ts) gs =
    let a = add_tile-Added t gs in
    let (inside, kept) = add_tiles-Holds ts (add_tile gs t) in
    (
      (λ u i. elim i [
        | inl q ↦ kept u (subst (λ x. Holds x (add_tile gs t)) (sym q) a.holds)
        | inr j ↦ inside u j
      ]),
      (λ u h. kept u (a.keeps u h)),
    )

add_tiles-Distinct :
    (ts : List Tile) (gs : List TileGroup)
    → Distinct (named gs)
    → Distinct (named (add_tiles gs ts))
unfolding add_tiles
add_tiles-Distinct [] gs d = d
add_tiles-Distinct (t ∷ ts) gs d = add_tiles-Distinct ts (add_tile gs t) (add_tile-Distinct t gs d)

-- The listing has at most one block for a site with a name, and every tile stands in a block of its
-- site.
pub group_tiles_lem :
    (ts : List Tile)
    → Distinct (named (group_tiles ts)) × ((t : Tile) → In t ts → Holds t (group_tiles ts))
unfolding group_tiles
group_tiles_lem ts = (add_tiles-Distinct ts [] tt, (add_tiles-Holds ts []).0)
