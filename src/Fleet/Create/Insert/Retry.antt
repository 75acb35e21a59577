-- ===== src/Fleet/Create/Insert/Retry.antt =====
-- A request that is sent again, server/internal/store/fleet_operations.go.
use openwrt_rmm.Base.{
  ℕ, ◌+◌, String, ◌≡◌, refl, ◌≢◌, ◌∙◌, ◌⊎◌, inl, inr, Bool, true, false, Option, none, some, List,
  [], ◌∷◌, ◌++◌, arith, map, find_where, eq_refl, eq_iff, equal_texts_refl, same_bool, Bool-cases,
  Option-cases,
}
use openwrt_rmm.Schema.{Db, FleetOperation, fleet_conflict, Result-cases, ok, err}
use openwrt_rmm.Env.{Env}
use openwrt_rmm.Access.{fleet_principal, fleet_device_access, permission_allowed, permission_policy}
use openwrt_rmm.Fleet.Create.{
  FleetOperationInput, CreateLib, Prepared, authorize_create, authorize_targets, authorize_target,
  schedule_valid,
}
use openwrt_rmm.Fleet.Create.Insert.{
  prepare, same_request, make_operation, new_operation, new_item, key_row, insert_made,
  store_or_reuse, create_prepared, create_fleet_operation, deadline_of,
}

find_where-append_none {ℓ} :
    {A : Type ℓ} (p : A → Bool) (rs : List A) (r : A)
    → find_where p rs ≡ none
    → p r ≡ true
    → find_where p (rs ++ r ∷ []) ≡ some r
find_where-append_none p [] r h k = rw k
find_where-append_none p (x ∷ rs) r h k = ground (arith, find_where-append_none p rs r)

map-devices :
    (lib : CreateLib) (p : Prepared) (ids : List String)
    → map (λ i. i.device_id) (map (new_item lib p) ids) ≡ ids
unfolding new_item
map-devices lib p [] = refl
map-devices lib p (id ∷ ids) = rw (map-devices lib p ids)

same_bool_refl : (b : Bool) → same_bool b b ≡ true
same_bool_refl true = refl
same_bool_refl false = refl

module _ (lib : CreateLib) where
  new_operation-same_request :
      (env : Env) (db : Db) (user_id : String) (input : FleetOperationInput) (p : Prepared)
      (deadline : ℕ)
      → (input.deadline_at ≡ "") ⊎ (lib.format_time deadline ≡ input.deadline_at)
      → same_request lib input p (new_operation lib env db user_id input p deadline) ≡ true
  unfolding same_request new_operation
  new_operation-same_request env db user_id input p deadline (inl e) =
      rw
        (
          map-devices lib p p.ids,
          equal_texts_refl p.ids,
          eq_refl p.request_hash,
          eq_refl input.title,
          eq_refl input.kind,
          eq_refl p.args.text,
        )
        (ground (arith, eq_iff input.deadline_at "", same_bool_refl input.stop_on_failure))
  new_operation-same_request env db user_id input p deadline (inr e) =
      rw
        (
          map-devices lib p p.ids,
          equal_texts_refl p.ids,
          eq_refl p.request_hash,
          eq_refl input.title,
          eq_refl input.kind,
          eq_refl p.args.text,
        )
        (ground (
          arith,
          eq_iff (lib.format_time deadline) input.deadline_at,
          same_bool_refl input.stop_on_failure,
        ))

  -- The access that a request needs is decided by tables that creating an operation leaves alone.
  authorize_targets-insert :
      (db db' : Db) (user_id : String) (admin : Bool) (kind : String) (ids : List String)
      → db'.devices ≡ db.devices
      → db'.policies ≡ db.policies
      → authorize_targets db' user_id admin kind ids ≡ authorize_targets db user_id admin kind ids
  unfolding authorize_targets authorize_target fleet_device_access permission_allowed
      permission_policy
  authorize_targets-insert db db' user_id admin kind [] d p = refl
  authorize_targets-insert db db' user_id admin kind (id ∷ ids) d p =
      rw (d, p, authorize_targets-insert db db' user_id admin kind ids d p) refl

  authorize_create-insert :
      (db db' : Db) (user_id : String) (input : FleetOperationInput) (ids : List String)
      (ops : List FleetOperation) (n : ℕ)
      → db' ≡ record db { operations = ops; draws = n }
      → authorize_create db' user_id input ids ≡ authorize_create db user_id input ids
  unfolding authorize_create fleet_principal schedule_valid
  authorize_create-insert db db' user_id input ids ops n e =
      rw e (elim (Result-cases (fleet_principal db user_id)) [
        | inl (a, q) ↦ rw q (
            rw
              (authorize_targets-insert db (record db { operations = ops; draws = n }) user_id a
                input.kind ids refl refl)
              refl)
        | inr (x, q) ↦ rw q refl
      ])

  make_operation-shape :
      (env : Env) (db : Db) (user_id : String) (input : FleetOperationInput) (p : Prepared)
      (op : FleetOperation)
      → make_operation lib env db user_id input p ≡ ok op
      → (deadline : ℕ) × (op ≡ new_operation lib env db user_id input p deadline)
        × ((input.deadline_at ≡ "") ⊎ (lib.parse_time input.deadline_at ≡ some deadline))
  unfolding make_operation deadline_of
  make_operation-shape env db user_id input p op h =
      elim (Result-cases (deadline_of lib env input)) [
        | inl (t, e) ↦ (
          t,
          ground arith,
          elim (Option-cases (lib.parse_time input.deadline_at)) [
            | inl n ↦ ground (arith, eq_iff input.deadline_at "")
            | inr (s, q) ↦ ground (arith, eq_iff input.deadline_at "")
          ],
        )
        | inr (x, e) ↦ ground arith
      ]

  -- create_fleet_operation, on a request that is not stored yet.
  created :
      (env : Env) (user_id : String) (input : FleetOperationInput) (p : Prepared)
      (op : FleetOperation) (db db' : Db) (o : Option FleetOperation)
      → find_where (key_row user_id input) db.operations ≡ o
      → store_or_reuse lib env user_id input p o db ≡ (ok op, db')
      → ((db' ≡ db)
          × (same_request lib input p op ≡ true)
          × (find_where (key_row user_id input) db.operations ≡ some op))
        ⊎ ((find_where (key_row user_id input) db.operations ≡ none)
            × (make_operation lib env db user_id input p ≡ ok op)
            × (db' ≡ record db { operations = db.operations ++ op ∷ []; draws = db.draws + 1 }))
  unfolding store_or_reuse insert_made
  created env user_id input p op db db' (some o) f h =
      elim (Bool-cases (same_request lib input p o)) [
        | inl t ↦ inl (ground arith, ground arith, ground arith)
        | inr n ↦ ground arith
      ]
  created env user_id input p op db db' none f h =
      elim (Result-cases (make_operation lib env db user_id input p)) [
        | inl (a, t) ↦ inr (f, ground arith, ground arith)
        | inr (x, t) ↦ ground arith
      ]

  retry_reuses :
      (env' : Env) (user_id : String) (input : FleetOperationInput) (p : Prepared)
      (op : FleetOperation) (db : Db)
      → prepare lib input ≡ ok p
      → authorize_create db user_id input p.ids ≡ ok tt
      → same_request lib input p op ≡ true
      → find_where (key_row user_id input) db.operations ≡ some op
      → create_fleet_operation lib env' user_id input db ≡ (ok op, db)
  unfolding create_fleet_operation create_prepared store_or_reuse
  retry_reuses env' user_id input p op db pr au sr f = rw pr (ground arith)

  retry_refuses :
      (env' : Env) (user_id : String) (input : FleetOperationInput) (p : Prepared)
      (op : FleetOperation) (db : Db)
      → prepare lib input ≡ ok p
      → authorize_create db user_id input p.ids ≡ ok tt
      → same_request lib input p op ≡ false
      → find_where (key_row user_id input) db.operations ≡ some op
      → create_fleet_operation lib env' user_id input db ≡ (err fleet_conflict, db)
  unfolding create_fleet_operation create_prepared store_or_reuse
  retry_refuses env' user_id input p op db pr au sr f = rw pr (ground arith)

  new_operation-other :
      (env : Env) (db : Db) (user_id : String) (input : FleetOperationInput) (p : Prepared)
      (deadline : ℕ)
      → input.deadline_at ≢ ""
      → lib.format_time deadline ≢ input.deadline_at
      → same_request lib input p (new_operation lib env db user_id input p deadline) ≡ false
  unfolding same_request new_operation
  new_operation-other env db user_id input p deadline given e =
      ground
        (arith, eq_iff (lib.format_time deadline) input.deadline_at, eq_iff input.deadline_at "")

  new_operation-key :
      (env : Env) (db : Db) (user_id : String) (input : FleetOperationInput) (p : Prepared)
      (deadline : ℕ)
      → key_row user_id input (new_operation lib env db user_id input p deadline) ≡ true
  unfolding new_operation
  new_operation-key env db user_id input p deadline =
      rw (eq_refl user_id, eq_refl input.request_key) refl

  -- A request for which CreateFleetOperation gave an operation is answered with the same operation
  -- when it is sent again, at any later moment, and changes nothing more, provided that its
  -- deadline is absent or written as the store writes deadlines.
  pub create_twice :
      (env env' : Env) (user_id : String) (input : FleetOperationInput) (op : FleetOperation)
      (db db' : Db)
      → ((t : ℕ)
          → lib.parse_time input.deadline_at ≡ some t
          → lib.format_time t ≡ input.deadline_at)
      → create_fleet_operation lib env user_id input db ≡ (ok op, db')
      → create_fleet_operation lib env' user_id input db' ≡ (ok op, db')
  unfolding create_fleet_operation create_prepared
  create_twice env env' user_id input op db db' canon h = elim (Result-cases (prepare lib input)) [
    | inl (p, pr) ↦ elim (Result-cases (authorize_create db user_id input p.ids)) [
      | inl (u, au) ↦
          elim (created env user_id input p op db db'
            (find_where (key_row user_id input) db.operations) refl (ground arith)) [
              | inl (e, sr, f) ↦ rw e (retry_reuses env' user_id input p op db pr au sr f)
              | inr (f, m, e) ↦
                  let (t, shape, d) = make_operation-shape env db user_id input p op m in
                  let key : key_row user_id input op ≡ true =
                    rw shape (new_operation-key env db user_id input p t) in
                  retry_reuses env' user_id input p op db' pr
                    (authorize_create-insert db db' user_id input p.ids (db.operations ++ op ∷ [])
                        (db.draws + 1) e
                      ∙ au)
                    (rw shape (
                      new_operation-same_request env db user_id input p t
                        (elim d [ inl z ↦ inl z | inr z ↦ inr (canon t z) ])))
                    (rw e (find_where-append_none (key_row user_id input) db.operations op f key))
            ]
      | inr (x, au) ↦ ground arith
    ]
    | inr (x, pr) ↦ ground arith
  ]

  -- A first request whose deadline is not written as the store writes deadlines is accepted, but
  -- the same request sent again is refused as a conflict, at any later moment.
  pub create_conflicts :
      (env env' : Env) (user_id : String) (input : FleetOperationInput) (op : FleetOperation)
      (db db' : Db)
      → find_where (key_row user_id input) db.operations ≡ none
      → ((t : ℕ)
          → lib.parse_time input.deadline_at ≡ some t
          → lib.format_time t ≢ input.deadline_at)
      → input.deadline_at ≢ ""
      → create_fleet_operation lib env user_id input db ≡ (ok op, db')
      → create_fleet_operation lib env' user_id input db' ≡ (err fleet_conflict, db')
  unfolding create_fleet_operation create_prepared
  create_conflicts env env' user_id input op db db' fresh differs given h =
      elim (Result-cases (prepare lib input)) [
        | inl (p, pr) ↦ elim (Result-cases (authorize_create db user_id input p.ids)) [
          | inl (u, au) ↦
              elim (created env user_id input p op db db'
                (find_where (key_row user_id input) db.operations) refl (ground arith)) [
                  | inl (e, sr, f) ↦ ground arith
                  | inr (f, m, e) ↦
                      let (t, shape, d) = make_operation-shape env db user_id input p op m in
                      let parsed : lib.parse_time input.deadline_at ≡ some t = ground arith in
                      let key : key_row user_id input op ≡ true =
                        rw shape (new_operation-key env db user_id input p t) in
                      retry_refuses env' user_id input p op db' pr
                        (authorize_create-insert db db' user_id input p.ids
                            (db.operations ++ op ∷ []) (db.draws + 1) e
                          ∙ au)
                        (rw shape
                          (new_operation-other env db user_id input p t given (differs t parsed)))
                        (rw e
                          (find_where-append_none (key_row user_id input) db.operations op f key))
                ]
          | inr (x, au) ↦ ground arith
        ]
        | inr (x, pr) ↦ ground arith
      ]
