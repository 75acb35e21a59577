-- ===== src/Commands/History.antt =====
-- Histories of the stored commands: any interleaving of the operations on them.
use openwrt_rmm.Base.{
  ℕ, String, ◌≡◌, refl, true, Option, none, some, List, [], ◌∷◌, arith, Related, Related-refl,
  Related-trans, if◌then◌else◌, ◌==◌,
}
use openwrt_rmm.Schema.{ℤ, Db, CommandStatus, Json}
use openwrt_rmm.Env.{Env}
use openwrt_rmm.Commands.{expire_claimed_commands, save_command_result, cancel_command}
use openwrt_rmm.Commands.Life.{
  Evolves, Evolves-refl, Evolves-trans, is_settled, expire_claimed_commands-Related,
  save_command_result-Related, cancel_command-Related,
}
use openwrt_rmm.Commands.Claim.{claim_next_command}
use openwrt_rmm.Commands.Claim.Evolution.{IsKeyed, Related-IsKeyed, claim_next_command-Related}

-- handleCommandResult of server/internal/httpapi/server.go: the status that an agent may report.
unfoldable pub result_status : String → Option CommandStatus
result_status status =
    if (status == "")
    then some CommandStatus.completed
    else if status == "completed"
    then some CommandStatus.completed
    else if status == "failed"
    then some CommandStatus.failed
    else none

-- One operation on the stored commands.
pub data Event : Type 0 where
  expiry : (max_age : ℕ) → Event
  claim : (device_id : String) → Event
  report : (command_id device_id status : String) → ℤ → (output : String) → Json → Event
  cancel : (device_id command_id : String) → Event

report_settled : Env → String → String → Option CommandStatus → ℤ → String → Json → Db → Db
report_settled env id device none code output result db = db
report_settled env id device (some s) code output result db =
    (save_command_result env id device s code output result db).1

unfoldable pub apply : Env → Event → Db → Db
unfolding report_settled
apply env (expiry max_age) db = expire_claimed_commands env max_age db
apply env (claim device) db = (claim_next_command env device db).1
apply env (report id device status code output result) db =
    report_settled env id device (result_status status) code output result db
apply env (cancel device id) db = (cancel_command env device id db).1

-- Each event comes with the surroundings of its time.
unfoldable pub run : List (Env × Event) → Db → Db
run [] db = db
run ((env, e) ∷ es) db = run es (apply env e db)

result_status-settled :
    (status : String) (s : CommandStatus) → result_status status ≡ some s → is_settled s ≡ true
unfolding result_status
result_status-settled status s h = ground arith

report_settled-Related :
    (env : Env) (id device : String) (o : Option CommandStatus) (code : ℤ) (output : String)
    (result : Json) (db : Db)
    → ((s : CommandStatus) → o ≡ some s → is_settled s ≡ true)
    → Related Evolves db.commands (report_settled env id device o code output result db).commands
unfolding report_settled
report_settled-Related env id device none code output result db h =
    Related-refl Evolves-refl db.commands
report_settled-Related env id device (some s) code output result db h =
    save_command_result-Related env id device s code output result db (h s refl)

apply-Related :
    (env : Env) (e : Event) (db : Db)
    → IsKeyed db.commands
    → Related Evolves db.commands (apply env e db).commands
unfolding apply
apply-Related env (expiry max_age) db k = expire_claimed_commands-Related env max_age db
apply-Related env (claim device) db k = claim_next_command-Related env device db k
apply-Related env (report id device status code output result) db k =
    report_settled-Related env id device (result_status status) code output result db
      (result_status-settled status)
apply-Related env (cancel device id) db k = cancel_command-Related env device id db

-- In any order of expiries, deliveries, reported results and operator's cancellations of single
-- commands, on a table whose rows have different identifiers: no stored command changes its device,
-- type, arguments, expiry, signature or attempt bound, its attempts never decrease, a cancelled or
-- expired one stays so, and a completed or failed one keeps being one of the two.
pub run-Related :
    (es : List (Env × Event)) (db : Db)
    → IsKeyed db.commands
    → Related Evolves db.commands (run es db).commands
unfolding run
run-Related [] db k = Related-refl Evolves-refl db.commands
run-Related ((env, e) ∷ es) db k =
    let one = apply-Related env e db k in
    Related-trans (λ x y z. Evolves-trans) one
      (run-Related es (apply env e db) (Related-IsKeyed one k))
