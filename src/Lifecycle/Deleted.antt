-- ===== src/Lifecycle/Deleted.antt =====
-- The deletion of an HTTP route that is stored: `CommonRouteHandler::on_deleted` of
-- kubvernor-controller/src/controllers/route/routes_common.rs.
use kubvernor.Prelude.{List}
use kubvernor.Prelude.Maps
use kubvernor.Keys.{ResourceKey, ResourceKey-discrete}

abbrev dec : Discrete ResourceKey
dec = ResourceKey-discrete
