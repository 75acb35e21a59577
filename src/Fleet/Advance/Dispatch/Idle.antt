-- ===== src/Fleet/Advance/Dispatch/Idle.antt =====
-- A dispatch of items that have all ended, server/internal/store/fleet_operations.go.
use openwrt_rmm.Base.{ℕ, ◌≡◌, refl, Bool, false, List, [], ◌∷◌, All}
use openwrt_rmm.Schema.{FleetOperation, FleetOperationItem, Result, ok}
use openwrt_rmm.Env.{Env}
use openwrt_rmm.Fleet.{is_pending}
use openwrt_rmm.Fleet.Advance.Dispatch.{
  Loop, dispatch, dispatch_item, decide_item, take_decision, after_step, prepend,
}

-- Nothing pending: the loop leaves the items and its state as they are.
pub dispatch-none :
    (env : Env) (op : FleetOperation) (access : Result Bool) (parallelism : ℕ)
    (is : List FleetOperationItem) (l : Loop)
    → All (λ i. is_pending i.status ≡ false) is
    → dispatch env op access parallelism is l ≡ ok (is, l)
unfolding dispatch dispatch_item decide_item take_decision after_step prepend
dispatch-none env op access parallelism [] l h = refl
dispatch-none env op access parallelism (i ∷ is) l h =
    simp (h.0, dispatch-none env op access parallelism is l h.1)
