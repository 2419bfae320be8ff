-- ===== src/Lifecycle/Dispatch.antt =====
-- What has happened to a resource, and which handler is called: `ResourceStateChecker`
-- (kubvernor-controller/src/controllers/utils/mod.rs) and `ResourceHandler::process`
-- (kubvernor-controller/src/controllers/handlers/resource_handler.rs), for a resource whose metadata
-- `meta_of` gives.
use kubvernor.Prelude.{
  String, String-discrete, Bool, true, false, not, ◌&&◌, Option, none, some, [], is_empty,
  if◌then◌else◌, unwrap_or,
}
use kubvernor.Prelude.Maps.{is_some}
use kubvernor.Prelude.Sets.{same}
use kubvernor.Statuses.Kube.{ObjectMeta}

pub data ResourceState : Type 0 where
  new spec_not_changed deleted spec_changed : ResourceState
  version_not_changed status_changed status_not_changed : ResourceState

-- equality of optional texts, as a test
abbrev pub same_version : Option String → Option String → Bool
same_version none none = true
same_version none (some _) = false
same_version (some _) none = false
same_version (some v) (some w) = same String-discrete v w

module _ {R : Type 0} (meta_of : R → ObjectMeta) where
  unfoldable pub is_deleted : R → Bool
  is_deleted resource =
      not (is_empty (unwrap_or (meta_of resource).finalizers []))
      && is_some (meta_of resource).deletion_timestamp

  -- the state after the specification was compared, where `status` compares the statuses
  abbrev pub after_spec : ResourceState → ResourceState → ResourceState
  after_spec spec_not_changed status = status
  after_spec spec status = spec

  unfoldable pub check_status :
      R → Option R → (R → R → ResourceState) → (R → R → ResourceState) → ResourceState
  check_status resource stored spec_checker status_checker =
      if is_deleted resource then deleted else elim stored [
        | none ↦ new
        | some s ↦
            if same_version (meta_of s).resource_version (meta_of resource).resource_version
            then version_not_changed
            else after_spec (spec_checker resource s) (status_checker resource s)
      ]

  pub record Handlers (A : Type 0) : Type 0 where
    pub on_version_not_changed : A
    pub on_spec_not_changed : A
    pub on_new : A
    pub on_spec_changed : A
    pub on_status_changed : A
    pub on_status_not_changed : A
    pub on_deleted : A

  abbrev pub dispatch : {A : Type 0} → Handlers A → ResourceState → A
  dispatch h version_not_changed = h.on_version_not_changed
  dispatch h spec_not_changed = h.on_spec_not_changed
  dispatch h new = h.on_new
  dispatch h spec_changed = h.on_spec_changed
  dispatch h status_changed = h.on_status_changed
  dispatch h status_not_changed = h.on_status_not_changed
  dispatch h deleted = h.on_deleted

  unfoldable pub process :
      {A : Type 0}
      → Handlers A
      → R
      → Option R
      → (R → R → ResourceState)
      → (R → R → ResourceState)
      → A
  process h resource stored spec_checker status_checker =
      dispatch h (check_status resource stored spec_checker status_checker)

  -- `check_spec` and `check_status` of the controllers, from tests of equality.
  unfoldable pub check_spec : (R → R → Bool) → R → R → ResourceState
  check_spec same_spec resource stored =
      if same_spec resource stored then spec_not_changed else spec_changed

  unfoldable pub check_status_changed : (R → R → Bool) → R → R → ResourceState
  check_status_changed same_status resource stored =
      if same_status resource stored then status_not_changed else status_changed
