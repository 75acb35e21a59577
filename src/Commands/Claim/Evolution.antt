-- ===== src/Commands/Claim/Evolution.antt =====
-- What ClaimNextCommand does to the stored commands, server/internal/store/sqlite.go.
use openwrt_rmm.Base.{
  sym, none_left, subst, eq_refl, All-Mem, Memᴰ, head, tail, earliest-Mem, All, List, [], ◌∷◌,
  update_where, both, ℕ, String, ◌≡◌, refl, true, false, ◌&&◌, Option, none, some, arith, Related,
  Related-refl, Related-update_where, Related-trans, if◌then◌else◌, ◌==◌, eq_iff,
}
use openwrt_rmm.Schema.{Db, Command}
use openwrt_rmm.Env.{Env, minutes}
use openwrt_rmm.Rollouts.Pause.{pause_guarded_rollout}
use openwrt_rmm.Commands.{expire_claimed_commands, is_queued}
use openwrt_rmm.Commands.Life.{
  Evolves, Evolves-refl, Evolves-trans, expire_claimed_commands-Related,
}
use openwrt_rmm.Commands.Claim.{
  revoke, Gate, deliver, hold, pause, cancel, fail, gate, next_command, deliverable, pass,
  claim_found, claim_row, cancel_row, claim_next_command,
}
use openwrt_rmm.Commands.Claim.Safety.{next_command-deliverable}

-- The rows of the table have different identifiers: id is its PRIMARY KEY.
abbrev pub IsKeyed : List Command → Type 0
IsKeyed [] = Unit
IsKeyed (c ∷ cs) = All (λ d. (d.id == c.id) ≡ false) cs × IsKeyed cs

All-same_id :
    (id : String) {cs ds : List Command}
    → Related Evolves cs ds
    → All (λ c. (c.id == id) ≡ false) cs
    → All (λ d. (d.id == id) ≡ false) ds
All-same_id id none_left h = tt
All-same_id id (both e r) h = (rw e.same_id h.0, All-same_id id r h.1)

All-key :
    (i j : String) (cs : List Command)
    → j ≡ i
    → All (λ c. (c.id == i) ≡ false) cs
    → All (λ c. (c.id == j) ≡ false) cs
All-key i j cs e h = rw e h

-- An operation that keeps the identifiers keeps them different.
pub Related-IsKeyed : {cs ds : List Command} → Related Evolves cs ds → IsKeyed cs → IsKeyed ds
Related-IsKeyed none_left k = tt
Related-IsKeyed (both e r) k =
    (All-key _ _ _ e.same_id (All-same_id _ r k.0), Related-IsKeyed r k.1)

absent-Related :
    (id : String) (f : Command → Command) (cs : List Command)
    → All (λ c. (c.id == id) ≡ false) cs
    → Related Evolves cs (update_where (λ c. c.id == id) f cs)
absent-Related id f [] h = none_left
absent-Related id f (c ∷ cs) h = both (rw h.0 (Evolves-refl c)) (absent-Related id f cs h.1)

other_id :
    (r c : Command) (cs : List Command)
    → Memᴰ r cs
    → All (λ d. (d.id == c.id) ≡ false) cs
    → (c.id == r.id) ≡ false
other_id r c cs m h =
    let apart = All-Mem (λ d. (d.id == c.id) ≡ false) r cs m h in
    ground (arith, eq_iff r.id c.id, eq_iff c.id r.id)

-- An update of the row with a key changes that row alone.
keyed-Related :
    (r : Command) (f : Command → Command)
    → Evolves r (f r)
    → (cs : List Command) → Memᴰ r cs
    → IsKeyed cs
    → Related Evolves cs (update_where (λ c. c.id == r.id) f cs)
keyed-Related r f h [] m k = elim m [ ]
keyed-Related r f h (c ∷ cs) (head e) k =
    let same : Evolves c (f c) = subst (λ x. Evolves x (f x)) e h in
    let changed : Related Evolves (c ∷ cs) (update_where (λ d. d.id == c.id) f (c ∷ cs)) =
      rw (eq_refl c.id) (both same (absent-Related c.id f cs k.0)) in
    subst (λ x. Related Evolves (c ∷ cs) (update_where (λ d. d.id == x.id) f (c ∷ cs))) (sym e)
      changed
keyed-Related r f h (c ∷ cs) (tail m) k =
    rw (other_id r c cs m k.0) (both (Evolves-refl c) (keyed-Related r f h cs m k.1))

revoke-Evolves :
    (now : ℕ) (reason : String) (r : Command)
    → is_queued r.status ≡ true
    → Evolves r (cancel_row now reason r)
revoke-Evolves now reason r q = ground arith

claim-Evolves :
    (now : ℕ) (r c : Command)
    → Evolves c (if (c.id == r.id) && is_queued c.status then claim_row now c else c)
claim-Evolves now r c = ground arith

cancel-Evolves :
    (now : ℕ) (reason : String) (r c : Command)
    → Evolves c (if (c.id == r.id) && is_queued c.status then cancel_row now reason c else c)
cancel-Evolves now reason r c = ground arith

pass-Related :
    (env : Env) (r : Command) (g : Gate) (db : Db)
    → Memᴰ r db.commands
    → is_queued r.status ≡ true
    → IsKeyed db.commands
    → Related Evolves db.commands (pass env r g db).1.commands
unfolding pass pause_guarded_rollout
pass-Related env r deliver db m q k =
    Related-update_where (λ x. (x.id == r.id) && is_queued x.status) (claim_row env.now)
      (claim-Evolves env.now r) db.commands
pass-Related env r hold db m q k = Related-refl Evolves-refl db.commands
pass-Related env r (pause id) db m q k = Related-refl Evolves-refl db.commands
pass-Related env r (cancel reason) db m q k =
    Related-update_where (λ x. (x.id == r.id) && is_queued x.status) (cancel_row env.now reason)
      (cancel-Evolves env.now reason r) db.commands
pass-Related env r (revoke reason) db m q k =
    keyed-Related r (cancel_row env.now reason) (revoke-Evolves env.now reason r q) db.commands m k
pass-Related env r (fail e) db m q k = Related-refl Evolves-refl db.commands

claim_found-Related :
    (env : Env) (device_id : String) (o : Option Command) (db : Db)
    → next_command env device_id db ≡ o
    → IsKeyed db.commands
    → Related Evolves db.commands (claim_found env device_id o db).1.commands
unfolding claim_found next_command
claim_found-Related env device_id none db n k = Related-refl Evolves-refl db.commands
claim_found-Related env device_id (some c) db n k =
    let queued : is_queued c.status ≡ true =
      ground (arith, next_command-deliverable env device_id db c n) in
    pass-Related env c (gate env db device_id c) db
      (earliest-Mem (λ x. x.created_at) (deliverable env.now device_id) db.commands c n) queued k

pub claim_next_command-Related :
    (env : Env) (device_id : String) (db : Db)
    → IsKeyed db.commands
    → Related Evolves db.commands (claim_next_command env device_id db).1.commands
unfolding claim_next_command
claim_next_command-Related env device_id db k =
    let db' = expire_claimed_commands env (minutes 2) db in
    let expired = expire_claimed_commands-Related env (minutes 2) db in
    Related-trans (λ x y z. Evolves-trans) expired
      (claim_found-Related env device_id (next_command env device_id db') db' refl
        (Related-IsKeyed expired k))
