-- ===== src/Resolution/Attached.antt =====
-- Which routes a listener gets.
use mathlib.Core.List.{Memᴰ}
use kubvernor.Prelude.{
  String, String-discrete, Bool, true, false, ◌||◌, ◌&&◌, Option, none, some, List, [], ◌∷◌, any,
  ◌≡◌, ◌↔◌, sym, ◌∙◌, arith, any_iff, ap,
}
use kubvernor.Prelude.Maps.{Map, get-insert}
use kubvernor.Prelude.Maps
use kubvernor.Prelude.Sets.{same, same-eq_iff}
use kubvernor.Keys.{ResourceKey, ResourceKey-discrete}
use kubvernor.Routes.{Route}
use kubvernor.Listeners.Convert.{GatewayListener}
use kubvernor.Matching.Matcher.{RouteToListenersMapping}
use kubvernor.Matching.Selection.{and_iff}
use kubvernor.Resolution.Resolver.{
  attach_once, add_route, insert_route, attach_to, attach_all, calculate_attached_routes,
}

abbrev dec : Discrete ResourceKey
dec = ResourceKey-discrete

abbrev has_key : ResourceKey → Route → Bool
has_key k r = same dec k r.resource_key

-- Whether a listener has a route of the key.
abbrev pub holds_route : ResourceKey → Option (List Route) → Bool
holds_route k none = false
holds_route k (some rs) = any (has_key k) rs

any-insert_route :
    (k : ResourceKey) (r : Route) (rs : List Route)
    → any (has_key k) (insert_route r rs) ≡ (any (has_key k) rs || has_key k r)
unfolding insert_route
any-insert_route k r [] = ground arith
any-insert_route k r (q ∷ qs) = ground (arith, any-insert_route k r qs)

abbrev has_name : String → GatewayListener → Bool
has_name name l = same String-discrete name l.name

holds-add_route :
    (k : ResourceKey) (o : Option (List Route)) (r : Route)
    → any (has_key k) (add_route o r) ≡ (holds_route k o || has_key k r)
holds-add_route k none r = any-insert_route k r []
holds-add_route k (some rs) r = any-insert_route k r rs

holds-attach_once :
    (k : ResourceKey) (name : String) (r : Route) (l : GatewayListener)
    (attached : Map String (List Route))
    → holds_route k (Maps.get String-discrete name (attach_once r l attached))
      ≡ (holds_route k (Maps.get String-discrete name attached) || (has_key k r && has_name name l))
holds-attach_once k name r l attached =
    ap (holds_route k) (
      get-insert String-discrete name l.name
        (add_route (Maps.get String-discrete l.name attached) r) attached)
    ∙ turn (String-discrete name l.name)
  where
    turn :
        (d : Dec (name ≡ l.name))
        → holds_route k (elim d [
          | yes _ ↦ some (add_route (Maps.get String-discrete l.name attached) r)
          | no _ ↦ Maps.get String-discrete name attached
        ])
          ≡ (holds_route k (Maps.get String-discrete name attached)
              || (has_key k r && (elim d [ yes _ ↦ true | no _ ↦ false ])))
    turn (yes p) =
        let entry = ap (λ n. holds_route k (Maps.get String-discrete n attached)) p in
        let added = holds-add_route k (Maps.get String-discrete l.name attached) r in ground arith
    turn (no n) = ground arith

holds-attach_to :
    (k : ResourceKey) (name : String) (r : Route) (ls : List GatewayListener)
    (attached : Map String (List Route))
    → holds_route k (Maps.get String-discrete name (attach_to r ls attached)) ≡ (
        holds_route k (Maps.get String-discrete name attached)
        || (has_key k r && any (has_name name) ls))
unfolding attach_to
holds-attach_to k name r [] attached = ground arith
holds-attach_to k name r (l ∷ ls) attached = ground (
  arith,
  holds-attach_to k name r ls (attach_once r l attached),
  holds-attach_once k name r l attached,
)

-- Whether a route of the key is mapped to a listener of the name.
abbrev maps_to : ResourceKey → String → RouteToListenersMapping → Bool
maps_to k name m = has_key k m.route && any (has_name name) m.listeners

holds-attach_all :
    (k : ResourceKey) (name : String) (ms : List RouteToListenersMapping)
    (attached : Map String (List Route))
    → holds_route k (Maps.get String-discrete name (attach_all ms attached))
      ≡ (holds_route k (Maps.get String-discrete name attached) || any (maps_to k name) ms)
unfolding attach_all
holds-attach_all k name [] attached = ground arith
holds-attach_all k name (m ∷ ms) attached = ground (
  arith,
  holds-attach_all k name ms (attach_to m.route m.listeners attached),
  holds-attach_to k name m.route m.listeners attached,
)

-- `calculate_attached_routes` gives a listener's name a route of a key exactly if some mapping leads
-- from a route of that key to a listener of that name.
pub calculate_attached_routes_iff :
    (k : ResourceKey) (name : String) (ms : List RouteToListenersMapping)
    → (holds_route k (Maps.get String-discrete name (calculate_attached_routes ms)) ≡ true) ↔ (
        (m : RouteToListenersMapping) × Memᴰ m ms
        × (k ≡ m.route.resource_key)
        × ((l : GatewayListener) × Memᴰ l m.listeners × (name ≡ l.name)))
unfolding calculate_attached_routes Maps.get
calculate_attached_routes_iff k name ms =
    let all = holds-attach_all k name ms [] in
    let found = any_iff (maps_to k name) ms in
    (
      λ e.
          let (m, member, h) = found.0 (sym all ∙ e) in
          let (key, named) = (and_iff (has_key k m.route) (any (has_name name) m.listeners)).0 h in
          let (l, here, is) = (any_iff (has_name name) m.listeners).0 named in
          (
            m,
            member,
            (same-eq_iff dec k m.route.resource_key).0 key,
            (l, here, (same-eq_iff String-discrete name l.name).0 is),
          ),
      λ (m, member, key, (l, here, is)).
          let named =
            (any_iff (has_name name) m.listeners).1
              (l, here, (same-eq_iff String-discrete name l.name).1 is) in
          let h =
            (and_iff (has_key k m.route) (any (has_name name) m.listeners)).1
              ((same-eq_iff dec k m.route.resource_key).1 key, named) in
          all ∙ found.1 (m, member, h),
    )
