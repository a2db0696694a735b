-- ===== src/Handlers/Listing.antt =====
-- handlers/server.go, groupTiles, tilesFor and canSeeBackend: the listing of a user. The rich text of
-- a description and its escaping are parameters.
pub mod Laws
use Prim.Native.String.{◌++◌ as str_append}
use xal_tor_ka.Base.{
  ℕ, zero, suc, ◌+◌, ◌-◌, ◌*◌, ◌/◌, ◌%◌, ◌^◌, ◌≤◌, ◌<◌, String, Char, code, ◌≡◌, refl, sym, ap, ◌∙◌,
  ◌≢◌, ◌↔◌, ◌⊎◌, inl, inr, Bool, true, false, not, ◌&&◌, ◌||◌, Option, none, some, List, [], ◌∷◌,
  ◌++◌, map, arith, ◌==◌, eq_iff, eq_refl, ltb, leb, eqb, if◌then◌else◌, ltb→lt, lt→ltb, leb→le,
  ltb→le, eqb→eq, eqb_refl, Bool-cases, Option-cases, some_eq, is_some, and→both, both→and,
  or→either, length, take, drop, length-append, length-take, length-drop, take-append-drop, any,
  all, keep, In, All, All-append, All-map, All-at, All-of, In-append_left, In-append_right,
  In-append, any→In, In→any, any-eq-false, all→All, keep-In, In-keep, has_prefix, trim_right,
  trim_char, index_char, has_char, trim_space, ne→false, false→ne, last_index_char,
  has_prefix→append, has_prefix-append, trim_char-lacks, len-cons, len-nil, len-cons-pos,
  has_prefix_unique, has_prefix_refl, has_prefix_shorter, eq-nil_of_len, ne-nil_of_len, Dict,
  lookup, insert, delete, has_key, lookup-insert, lookup-insert_self, lookup-delete, dict_laws, ℤ,
  pos, negsuc, sub_ℕ, ltb_ℤ, is_pos, add_clamped,
}
use xal_tor_ka.Models.Services.{
  ProviderCfg, Route, Health, WafCfg, HostingRef, NginxOpts, Backend, Link, Monitor, Services,
}
use xal_tor_ka.Models.Identity.{User, Users, Session, SetupToken, SetupState}
use xal_tor_ka.Matrix.{Resolver, authorized}
use xal_tor_ka.Handlers.Server.{Server}

pub record Tile : Type 0 where
  pub name : String
  pub url : String
  pub description : String
  pub image : String
  pub host : String
  pub site : String
  pub external : Bool

pub record TileGroup : Type 0 where
  pub site : String
  pub tiles : List Tile

-- out[i].Tiles = append(...) for the group of the site; none where the site has no group yet
unfoldable pub add_to_site : Tile → List TileGroup → Option (List TileGroup)
add_to_site t [] = none
add_to_site t (g ∷ gs) =
    let found : Option (List TileGroup) = elim (add_to_site t gs) [
      | none ↦ none
      | some hs ↦ some (g ∷ hs)
    ] in
    if g.site == t.site then some (record g { tiles = g.tiles ++ (t ∷ []) } ∷ gs) else found

-- one round of the loop; the map idx is read off the groups, which have a site of their own each
unfoldable pub add_tile : List TileGroup → Tile → List TileGroup
add_tile out t =
    if t.site == ""
    then out ++ (record { site = ""; tiles = t ∷ [] } ∷ [])
    else elim (add_to_site t out) [
      | some gs ↦ gs
      | none ↦ out ++ (record { site = t.site; tiles = t ∷ [] } ∷ [])
    ]

unfoldable pub add_tiles : List TileGroup → List Tile → List TileGroup
add_tiles out [] = out
add_tiles out (t ∷ ts) = add_tiles (add_tile out t) ts

-- groupTiles
unfoldable pub group_tiles : List Tile → List TileGroup
group_tiles ts = add_tiles [] ts

-- canSeeBackend
unfoldable pub can_see_backend : User → Backend → Bool
can_see_backend u be =
    u.admin
    || any (λ rt. rt.rule == "public" || rt.rule == "authenticated") be.routes
    || authorized u be.id

abbrev pub site_of : Option HostingRef → String
site_of none = ""
site_of (some h) = h.site

module _ (rich_html escape : String → String) where
  unfoldable pub backend_tile : Backend → Tile
  backend_tile be = record {
    name = if be.name == "" then be.id else be.name;
    url = if be.url == "" then str_append "//" be.host else be.url;
    description = rich_html be.description;
    image = if be.image == "" then "" else str_append "/listing/img/" be.id;
    host = be.host;
    site = site_of be.hosting;
    external = false;
  }

  unfoldable pub link_tile : Link → Tile
  link_tile l = record {
    name = l.name;
    url = l.url;
    description = escape l.description;
    image = "";
    host = "";
    site = "";
    external = true;
  }

  unfoldable pub can_see_link : User → Link → Bool
  can_see_link u l = not l.disabled && (u.admin || l.public || authorized u l.id)

  -- tilesFor
  unfoldable pub tiles_for : User → Server → List Tile
  tiles_for u s =
      map backend_tile (keep (λ be. can_see_backend u be && not be.unlisted) s.resolver.backends)
      ++ map link_tile (keep (can_see_link u) s.links)
