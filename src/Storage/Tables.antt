-- ===== src/Storage/Tables.antt =====
-- What the writes to the tables of attached routes and of inference pools change.
use mathlib.Core.Option
use kubvernor.Prelude.{
  true, ◌&&◌, not, Option, none, some, List, [], ◌∷◌, ◌≡◌, refl, ap, ◌∙◌, false, inl, inr, arith,
  Option-cases,
}
use kubvernor.Prelude.Maps
use kubvernor.Prelude.Sets
use kubvernor.Prelude.Maps.{Map, get-insert}
use kubvernor.Prelude.Sets.{contains, contains-insert, contains-remove, same}
use kubvernor.Keys.{ResourceKey, ResourceKey-discrete}
use kubvernor.Storage.Locks.{RouteToInferencePool}
use kubvernor.Storage.Attached.{attached_set, detached_table}
use kubvernor.Storage.Pools.{pools_of, insert_pools, drop_pools, pooled_set, left_over}
use kubvernor.Storage.Spec.{holds, pools_in}

abbrev dec : Discrete ResourceKey
dec = ResourceKey-discrete

pub pools_of-insert_pools :
    (r k : ResourceKey) (ids : List ResourceKey) (es : List RouteToInferencePool)
    → pools_of r (insert_pools k ids es) ≡ (elim (pools_of r es) [
      | none ↦ elim (dec r k) [ yes _ ↦ some ids | no _ ↦ none ]
      | some old ↦ some old
    ])
unfolding pools_of insert_pools
pools_of-insert_pools r k ids [] = ground arith
pools_of-insert_pools r k ids (e ∷ es) = ground (arith, pools_of-insert_pools r k ids es)

pub pools_of-drop_pools :
    (r k : ResourceKey) (es : List RouteToInferencePool)
    → pools_of r (drop_pools k es) ≡ (elim (dec r k) [ yes _ ↦ none | no _ ↦ pools_of r es ])
unfolding pools_of drop_pools
pools_of-drop_pools r k [] = ground arith
pools_of-drop_pools r k (e ∷ es) = ground (arith, pools_of-drop_pools r k es)

pub pools_of-pooled_set :
    (r k : ResourceKey) (ids : List ResourceKey) (o : Option (List RouteToInferencePool))
    → pools_of r (pooled_set k ids o) ≡ (elim (pools_in r o) [
      | none ↦ elim (dec r k) [ yes _ ↦ some ids | no _ ↦ none ]
      | some old ↦ some old
    ])
unfolding pooled_set pools_of
pools_of-pooled_set r k ids none = pools_of-insert_pools r k ids []
pools_of-pooled_set r k ids (some es) = pools_of-insert_pools r k ids es

pub pools_of-left_over :
    (r k : ResourceKey) (o : Option (List RouteToInferencePool))
    → pools_of r (left_over k o) ≡ (elim (dec r k) [ yes _ ↦ none | no _ ↦ pools_in r o ])
unfolding left_over pools_of
pools_of-left_over r k none = ground arith
pools_of-left_over r k (some es) = pools_of-drop_pools r k es

pub contains-attached_set :
    (r k : ResourceKey) (o : Option (List ResourceKey))
    → contains dec r (attached_set k o) ≡ (elim (dec r k) [ yes _ ↦ true | no _ ↦ holds r o ])
unfolding attached_set contains
contains-attached_set r k none = ground arith
contains-attached_set r k (some routes) = ground (arith, contains-insert dec r k routes)

abbrev pub taken_set : Option (List ResourceKey) → List ResourceKey
taken_set none = []
taken_set (some routes) = routes

pub get-detached_table :
    (q id k : ResourceKey) (table : Map ResourceKey (List ResourceKey))
    → Maps.get dec q (detached_table id k (Maps.get dec id table) table) ≡ (elim (dec q id) [
      | yes _ ↦ Option.map (Sets.remove dec k) (Maps.get dec id table)
      | no _ ↦ Maps.get dec q table
    ])
unfolding detached_table
get-detached_table q id k table = elim (Option-cases (Maps.get dec id table)) [
  | inl e ↦ rw (e, detached_table) (ground arith)
  | inr (routes, e) ↦
      rw (e, detached_table) (ground (arith, get-insert dec q id (Sets.remove dec k routes) table))
]

holds-remove :
    (q k : ResourceKey) (o : Option (List ResourceKey))
    → holds q (Option.map (Sets.remove dec k) o) ≡ (holds q o && not (same dec q k))
holds-remove q k none = refl
holds-remove q k (some routes) = ground (arith, contains-remove dec q k routes)

-- A detachment takes one route from one gateway.
pub holds-detached_table :
    (g q id k : ResourceKey) (table : Map ResourceKey (List ResourceKey))
    → holds q (Maps.get dec g (detached_table id k (Maps.get dec id table) table))
      ≡ (holds q (Maps.get dec g table) && not (same dec q k && same dec g id))
holds-detached_table g q id k table =
    ap (holds q) (get-detached_table g id k table) ∙ turn (dec g id)
  where
    turn :
        (d : Dec (g ≡ id))
        → holds q (elim d [
          | yes _ ↦ Option.map (Sets.remove dec k) (Maps.get dec id table)
          | no _ ↦ Maps.get dec g table
        ])
          ≡ (holds q (Maps.get dec g table)
              && not (same dec q k && (elim d [ yes _ ↦ true | no _ ↦ false ])))
    turn (yes p) = holds-remove q k (Maps.get dec id table) ∙ rw p (ground arith)
    turn (no _) = ground arith
