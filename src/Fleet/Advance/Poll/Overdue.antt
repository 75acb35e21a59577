-- ===== src/Fleet/Advance/Poll/Overdue.antt =====
-- What the polling finds at the deadline, server/internal/store/fleet_operations.go.
use openwrt_rmm.Base.{
  ℕ, String, ◌≡◌, refl, sym, inl, inr, Bool, true, false, not, ◌&&◌, Option, none, some, List, [],
  ◌∷◌, arith, All, any, map, find_where, update_where, Bool-cases, ◌==◌, eq_iff, eq_refl,
}
use mathlib.Core.Option.{some-injective}
use openwrt_rmm.Schema.{Db, Command, CommandStatus, FleetOperation, FleetOperationItem}
use openwrt_rmm.Env.{Env}
use openwrt_rmm.Commands.{in_flight, past, expire}
use openwrt_rmm.Fleet.{is_pending, is_working}
use openwrt_rmm.Fleet.Advance.Poll.{
  poll_item, poll_items, expire_commands, expire_pending, expire_item, is_over, read_status, follow,
  after_exit, after_health,
}

-- The command of an item that is in work, if it is still there, has an expiry that has come.
abbrev pub IsDue : ℕ → Db → FleetOperationItem → Type 0
IsDue now db i =
    (c : Command)
    → find_where (λ c. c.id == i.command_id) db.commands ≡ some c
    → past c.expires_at now ≡ true

-- An item that is neither pending nor in work.
abbrev pub is_ended : FleetOperationItem → Bool
is_ended i = not (is_pending i.status) && not (is_working i.status)

ended_row :
    (r c : Command)
    → ◌≡◌ {A = Option Command} (some r) (some c)
    → in_flight r.status ≡ false
    → in_flight c.status ≡ false
ended_row r c e h = rw (sym (some-injective _ _ e)) h

-- The expired row of a command that an item names.
find_where-expired :
    (now : ℕ) (items : List FleetOperationItem) (id : String) (cs : List Command)
    → any (λ i. i.command_id == id) items ≡ true
    → ((c : Command) → find_where (λ c. c.id == id) cs ≡ some c → past c.expires_at now ≡ true)
    → (c : Command)
    → find_where
        (λ c. c.id == id)
        (update_where
          (λ c.
            in_flight c.status && past c.expires_at now && any (λ i. i.command_id == c.id) items)
          (expire now)
          cs)
      ≡ some c
    → in_flight c.status ≡ false
find_where-expired now items id [] named due c h = cc
find_where-expired now items id (r ∷ rs) named due c h = elim (Bool-cases (r.id == id)) [
  | inl e ↦
      let mine : past r.expires_at now ≡ true = due r (rw e refl) in
      let same : r.id ≡ id = ground (arith, eq_iff r.id id) in
      let listed : any (λ i. i.command_id == r.id) items ≡ true = rw same named in
      elim (Bool-cases (in_flight r.status)) [
        | inl y ↦ ended_row (expire now r) c (rw (y, mine, listed, e) at h) refl
        | inr n ↦ ended_row r c (rw (n, e) at h) n
      ]
  | inr n ↦
      find_where-expired now items id rs named (λ d k. due d (rw n k)) c
        (elim (Bool-cases
          (in_flight r.status && past r.expires_at now && any (λ i. i.command_id == r.id) items)) [
            | inl y ↦ rw (y, n) at h
            | inr m ↦ rw (m, n) at h
          ])
]

settled_status :
    (env : Env) (op : FleetOperation) (c : Command)
    → is_over env op ≡ true
    → in_flight c.status ≡ false
    → in_flight (read_status env op (some c)) ≡ false
unfolding read_status after_exit after_health
settled_status env op c over h = ground arith

follow_ended :
    (s : CommandStatus) (i : FleetOperationItem)
    → in_flight s ≡ false
    → is_ended (follow s i).0 ≡ true
unfolding follow
follow_ended s i h = ground arith

module _ (env : Env) (op : FleetOperation) (db : Db) (over : is_over env op ≡ true) where
  read_settled :
      (id : String)
      → any (λ i. i.command_id == id) op.items ≡ true
      → ((c : Command)
          → find_where (λ c. c.id == id) db.commands ≡ some c
          → past c.expires_at env.now ≡ true)
      → (o : Option Command) → find_where (λ c. c.id == id) (expire_commands env op db).commands ≡ o
      → in_flight (read_status env op o) ≡ false
  unfolding expire_commands read_status
  read_settled id named due none e = refl
  read_settled id named due (some c) e =
      settled_status env op c over
        (find_where-expired env.now op.items id db.commands named due c e)

  poll_item-ended :
      (i : FleetOperationItem)
      → is_pending i.status ≡ false
      → (is_working i.status ≡ true → any (λ j. j.command_id == i.command_id) op.items ≡ true)
      → (is_working i.status ≡ true → IsDue env.now db i)
      → is_ended (poll_item env (expire_commands env op db) op i).0 ≡ true
  unfolding poll_item
  poll_item-ended i p named due = elim (Bool-cases (is_working i.status)) [
    | inl w ↦ rw w (
        follow_ended _ i (
          read_settled i.command_id (named w) (due w)
            (find_where (λ c. c.id == i.command_id) (expire_commands env op db).commands) refl))
    | inr n ↦ rw n (rw (p, n) refl)
  ]

  -- What is needed of an item before the deadline fails what is pending.
  abbrev IsReady : FleetOperationItem → Type 0
  IsReady i =
      is_working i.status ≡ true
      → (any (λ j. j.command_id == i.command_id) op.items ≡ true) × IsDue env.now db i

  poll_items-ended :
      (is : List FleetOperationItem)
      → All IsReady is
      → All
          (λ i. is_ended i ≡ true)
          (poll_items env (expire_commands env op db) op (map expire_item is)).items
  unfolding poll_items expire_item
  poll_items-ended [] h = tt
  poll_items-ended (i ∷ is) h = (
    elim (Bool-cases (is_pending i.status)) [
      | inl p ↦ simp p (poll_item-ended _ refl (λ w. ground arith) (λ w. ground arith))
      | inr n ↦ simp n (poll_item-ended i n (λ w. (h.0 w).0) (λ w. (h.0 w).1))
    ],
    poll_items-ended is h.1,
  )

  named_items :
      (is js : List FleetOperationItem)
      → ((i : FleetOperationItem)
          → any (λ j. j.command_id == i.command_id) is ≡ true
          → any (λ j. j.command_id == i.command_id) js ≡ true)
      → All (λ i. is_working i.status ≡ true → IsDue env.now db i) is
      → All
          (λ i.
            is_working i.status ≡ true
            → (any (λ j. j.command_id == i.command_id) js ≡ true) × IsDue env.now db i)
          is
  named_items [] js up h = tt
  named_items (i ∷ is) js up h = (
    (λ w. (up i (ground (arith, eq_refl i.command_id)), h.0 w)),
    named_items is js (λ k e. up k (ground arith)) h.1,
  )

  -- At the deadline, after the polling, every item has ended.
  pub polled_ended :
      All (λ i. is_working i.status ≡ true → IsDue env.now db i) op.items
      → All
          (λ i. is_ended i ≡ true)
          (poll_items env (expire_commands env op db) op (expire_pending env op)).items
  unfolding expire_pending
  polled_ended h = rw over (poll_items-ended op.items (named_items op.items op.items (λ i e. e) h))
