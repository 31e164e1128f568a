-- ===== src/Dag/Executor/Retries.antt =====
-- How often an attempt is made.
use nexolith.Base.{
  ℕ, zero, suc, ◌<◌, String, List, ◌∷◌, Bool, true, false, Option, none, some, ◌≡◌, Result, ◌⊎◌,
  Error, inl, inr, refl,
}
use nexolith.Dag.Executor.{Call, Ending, returned, failed, ending_of, raised}

-- The call, made `k` times more.
abbrev pub again : ℕ → Call → List Call → List Call
again zero call calls = calls
again (suc k) call calls = again k call (call ∷ calls)

module _ (perform : List Call → Call → Result (Unit {0})) (call : Call) where
  -- The next `k` calls fail.
  abbrev pub AllFail : ℕ → List Call → Type 0
  AllFail zero calls = Unit
  AllFail (suc k) calls =
      ((m : String) × (ending_of (perform calls call) ≡ failed m)) × AllFail k (call ∷ calls)

  abbrev message_of : Ending → Option String
  message_of (failed m) = some m
  message_of e = none

  -- The message of the last of the next `k` calls.
  unfoldable pub last_message : ℕ → List Call → Option String → Option String
  last_message zero calls last = last
  last_message (suc k) calls last =
      last_message k (call ∷ calls) (message_of (ending_of (perform calls call)))

  -- What the loop reports, by the calls alone.
  abbrev pub Reported : ℕ → Option String → List Call → Bool × Option String → List Call → Type 0
  Reported left last calls (true, error) calls' =
      (k : ℕ) × (k < left)
      × AllFail k calls
      × (ending_of (perform (again k call calls) call) ≡ returned)
      × (calls' ≡ again (suc k) call calls)
      × (error ≡ none)
  Reported left last calls (false, error) calls' =
      AllFail left calls × (calls' ≡ again left call calls) × (error ≡ last_message left calls last)

  pub Ending-cases :
      (e : Ending)
      → (e ≡ returned) ⊎ (((m : String) × (e ≡ failed m)) ⊎ ((x : Error) × (e ≡ raised x)))
  Ending-cases returned = inl refl
  Ending-cases (failed m) = inr (inl (m, refl))
  Ending-cases (raised x) = inr (inr (x, refl))
