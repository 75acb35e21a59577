-- ===== src/Fleet/Advance/Poll/Unsent.antt =====
-- That polling the items of a fleet operation sends nothing,
-- server/internal/store/fleet_operations.go.
use openwrt_rmm.Base.{
  ℕ, ◌≡◌, refl, ◌∙◌, ◌⊎◌, inl, inr, Bool, true, false, List, [], ◌∷◌, arith, Bool-cases, Related,
  none_left, both, Related-refl, Related-map, Related-update_where, if◌then◌else◌,
}
use openwrt_rmm.Schema.{Db, Command, CommandStatus, FleetOperation, FleetOperationItem}
use openwrt_rmm.Env.{Env}
use openwrt_rmm.Commands.{expire}
use openwrt_rmm.Fleet.{is_working}
use openwrt_rmm.Fleet.Advance.Poll.{
  poll_item, poll_items, expire_commands, expire_pending, expire_item, is_over, follow,
}

pub poll_item-working :
    (env : Env) (db : Db) (op : FleetOperation) (i : FleetOperationItem)
    → is_working i.status ≡ false
    → is_working (poll_item env db op i).0.status ≡ false
unfolding poll_item
poll_item-working env db op i h = rw h h

-- An item does not go to work.
abbrev pub Unsent : FleetOperationItem → FleetOperationItem → Type 0
Unsent i j =
    (j.device_id ≡ i.device_id) × (is_working i.status ≡ false → is_working j.status ≡ false)

-- A command is as it was, or has expired.
abbrev pub Unchanged : Command → Command → Type 0
Unchanged c d = (d ≡ c) ⊎ ((d.id ≡ c.id) × (d.status ≡ CommandStatus.expired))

pub Unsent-trans : (i j k : FleetOperationItem) → Unsent i j → Unsent j k → Unsent i k
Unsent-trans i j k h l = (l.0 ∙ h.0, λ e. l.1 (h.1 e))

pub expire_pending-Unsent :
    (env : Env) (op : FleetOperation) → Related Unsent op.items (expire_pending env op)
unfolding expire_pending expire_item
expire_pending-Unsent env op = elim (Bool-cases (is_over env op)) [
  | inl t ↦
      rw t (Related-map {R = Unsent} expire_item (λ i. (ground arith, λ e. ground arith)) op.items)
  | inr f ↦ rw f (Related-refl {R = Unsent} (λ i. (refl, λ e. e)) op.items)
]

poll_item-device_id :
    (env : Env) (db : Db) (op : FleetOperation) (i : FleetOperationItem)
    → (poll_item env db op i).0.device_id ≡ i.device_id
unfolding poll_item follow
poll_item-device_id env db op i = ground arith

pub poll_items-Unsent :
    (env : Env) (db : Db) (op : FleetOperation) (is : List FleetOperationItem)
    → Related Unsent is (poll_items env db op is).items
unfolding poll_items
poll_items-Unsent env db op [] = none_left
poll_items-Unsent env db op (i ∷ is) =
    both (poll_item-device_id env db op i, λ e. poll_item-working env db op i e)
      (poll_items-Unsent env db op is)

expired-Unchanged : (b : Bool) (now : ℕ) (c : Command) → Unchanged c (if b then expire now c else c)
expired-Unchanged true now c = inr (refl, refl)
expired-Unchanged false now c = inl refl

pub expire_commands-Unchanged :
    (env : Env) (op : FleetOperation) (db : Db)
    → Related Unchanged db.commands (expire_commands env op db).commands
unfolding expire_commands
expire_commands-Unchanged env op db =
    Related-update_where {R = Unchanged} _ (expire env.now) (λ c. expired-Unchanged _ env.now c)
      db.commands
