-- ===== src/Keys/Tests.antt =====
-- Keys that are printed, and the key of a gateway that a route names as its parent.
use kubvernor.Prelude.{none, some, ◌≡◌, refl}
use kubvernor.Keys.{ResourceKey, Meta, ParentReference, namespaced_key, display}

abbrev shop : ResourceKey
shop = namespaced_key "gateway.one" "shop"

shop_printed : display shop ≡ "shop.gateway.one"
unfolding display namespaced_key
shop_printed = refl

abbrev parent : ParentReference
parent = record {
  group = none;
  kind = none;
  namespace = none;
  name = "front";
  section_name = none;
  port = none;
}

abbrev front : Meta
front = record { namespace = some "shop"; name_any = "front" }
