-- ===== src/Agent/State/Files.antt =====
-- Which files a command has in the agent's directory, agent/go/cmd/rmm-agent/main.go.
use openwrt_rmm.Base.{
  ℕ, ◌+◌, ◌≤◌, eq_iff, String, ◌≡◌, refl, ◌∙◌, eq_refl, Bool, true, false, ◌&&◌, ◌||◌, Option, none,
  some, List, [], ◌∷◌, any, arith, leb, ◌==◌, Bool-cases, inl, inr, delete_where,
}
use openwrt_rmm.Agent.State.{
  CommandResult, Content, pending, saved, StateFile, marker_of, result_of, find_result, result_or,
  AgentState, SpoolFile, flush_from, flush_spooled_result, flush_spooled_results, is_answered,
  persist_command_result, remove_marker, days, is_saved, is_pending,
}

-- A file that keeps the command `id` from running again until the time `t` at least.
abbrev pub keeps : String → ℕ → StateFile → Bool
keeps id t f = (f.command_id == id) && leb t (f.modified + days 30)

pub any-delete_where {ℓ} :
    {A : Type ℓ} (p q : A → Bool)
    → ((a : A) → p a ≡ true → q a ≡ false)
    → (xs : List A) → any p xs ≡ true
    → any p (delete_where q xs) ≡ true
any-delete_where p q apart [] h = h
any-delete_where p q apart (x ∷ xs) h = ground (arith, apart x, any-delete_where p q apart xs)

result_or-none :
    (c : Content) (rest : Option CommandResult)
    → result_or c rest ≡ none
    → (is_saved c ≡ false) × (rest ≡ none)
unfolding result_or
result_or-none pending rest h = (refl, h)
result_or-none (saved r) rest h = cc

find_result-none :
    (id : String) (f : StateFile) (fs : List StateFile)
    → find_result id (f ∷ fs) ≡ none
    → (result_of id f ≡ false) × (find_result id fs ≡ none)
unfolding find_result
find_result-none id f fs h = elim (Bool-cases (f.command_id == id)) [
  | inl e ↦
      let both = result_or-none f.content (find_result id fs) (rw e at h) in (rw e both.0, both.1)
  | inr n ↦ (rw n refl, rw n at h)
]

-- A command without a result has no saved file.
saved_none :
    (id : String) (fs : List StateFile) → find_result id fs ≡ none → any (result_of id) fs ≡ false
saved_none id [] h = refl
saved_none id (f ∷ fs) h =
    let both = find_result-none id f fs h in rw (both.0, saved_none id fs both.1) refl

content_kind : (c : Content) → (is_pending c || is_saved c) ≡ true
content_kind pending = refl
content_kind (saved r) = refl

-- Without a result and without a marker the identifier has no file.
pub no_file :
    (id : String) (t : ℕ) (fs : List StateFile)
    → find_result id fs ≡ none
    → any (marker_of id) fs ≡ false
    → any (keeps id t) fs ≡ false
no_file id t fs h k = go fs (saved_none id fs h) k
  where
    go :
        (fs : List StateFile)
        → any (result_of id) fs ≡ false
        → any (marker_of id) fs ≡ false
        → any (keeps id t) fs ≡ false
    go [] h k = refl
    go (f ∷ fs) h k = ground (arith, go fs, content_kind f.content)

module _ (id : String) (t now : ℕ) (i : String) (r : CommandResult)
    (own : i ≡ id → t ≤ now + days 30) where
  persisted_keeps :
      (s : AgentState)
      → any (keeps id t) s.files ≡ true
      → any (keeps id t) (persist_command_result now i r s).files ≡ true
  unfolding persist_command_result
  persisted_keeps s h = elim (Bool-cases (i == id)) [
    | inl e ↦ ground (arith, eq_iff i id, own)
    | inr n ↦
        let rest =
          any-delete_where (keeps id t) (result_of i)
            (λ f k. ground (arith, eq_iff f.command_id i, eq_iff f.command_id id, eq_iff i id))
            s.files h in
        ground (arith, rest)
  ]

  -- A saved result keeps what its files kept, with the marker or without it.
  pub settled_keeps :
      (removed : Bool) (s : AgentState)
      → any (keeps id t) s.files ≡ true
      → any (keeps id t) (remove_marker removed i (persist_command_result now i r s)).files ≡ true
  unfolding remove_marker persist_command_result
  settled_keeps false s h = persisted_keeps s h
  settled_keeps true s h = elim (Bool-cases (i == id)) [
    | inl e ↦ ground (arith, eq_iff i id, own)
    | inr n ↦
        any-delete_where (keeps id t) (marker_of i)
          (λ f k. ground (arith, eq_iff f.command_id i, eq_iff f.command_id id, eq_iff i id))
          (persist_command_result now i r s).files (persisted_keeps s h)
  ]

flush_from-same :
    (answer : SpoolFile → Bool × Option ℕ) (fs : List SpoolFile) (s : AgentState)
    → ((flush_from answer fs s).files ≡ s.files) × ((flush_from answer fs s).runs ≡ s.runs)
unfolding flush_from flush_spooled_result
flush_from-same answer [] s = (refl, refl)
flush_from-same answer (f ∷ fs) s =
    let rest = flush_from-same answer fs (flush_spooled_result (answer f).0 (answer f).1 f s) in
    let one = flush_one (answer f).0 (answer f).1 f s in (rest.0 ∙ one.0, rest.1 ∙ one.1)
  where
    flush_one :
        (readable : Bool) (status : Option ℕ) (f : SpoolFile) (s : AgentState)
        → ((flush_spooled_result readable status f s).files ≡ s.files)
          × ((flush_spooled_result readable status f s).runs ≡ s.runs)
    flush_one readable status f s = elim (Bool-cases (readable && is_answered status)) [
      | inl e ↦ rw e (refl, refl)
      | inr n ↦ rw n (refl, refl)
    ]

-- The flush of the spool touches no file of the commands and runs nothing.
pub flush_spooled_results-same :
    (answer : SpoolFile → Bool × Option ℕ) (s : AgentState)
    → ((flush_spooled_results answer s).files ≡ s.files)
      × ((flush_spooled_results answer s).runs ≡ s.runs)
unfolding flush_spooled_results
flush_spooled_results-same answer s = flush_from-same answer s.spool s

-- A result that is persisted is found, with the marker or without it.
pub find_result-settled :
    (removed : Bool) (now : ℕ) (id : String) (r : CommandResult) (s : AgentState)
    → find_result id (remove_marker removed id (persist_command_result now id r s)).files ≡ some r
unfolding find_result result_or remove_marker persist_command_result
find_result-settled false now id r s = rw (eq_refl id)
find_result-settled true now id r s = ground (arith, eq_refl id)

pub remove_marker-runs :
    (removed : Bool) (now : ℕ) (id : String) (r : CommandResult) (s : AgentState)
    → (remove_marker removed id (persist_command_result now id r s)).runs ≡ s.runs
unfolding remove_marker persist_command_result
remove_marker-runs false now id r s = refl
remove_marker-runs true now id r s = refl
