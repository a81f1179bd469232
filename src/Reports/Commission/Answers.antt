-- ===== src/Reports/Commission/Answers.antt =====
-- When `getCommissions` of src/bets/retail.service.ts answers.
use betting_service.Prelude.{
  List-cases, ℕ, ◌≡◌, ◌⊎◌, refl, Bool, true, false, inl, inr, List, [], ◌∷◌, none, some, length,
  suc, ap,
}
use betting_service.Floats.{Floats}
use betting_service.Store.{Store, ok}
use betting_service.Reports.Commission.{
  CommissionSums, no_sums, sport_sums, virtual_sums, AgentProfile, Commission, Provider, casino,
  virtual, sport, sums_of, commission_of, commissions_of, get_commissions,
}

-- No agent has users.
abbrev pub all_empty : List AgentProfile → Bool
all_empty [] = true
all_empty (a ∷ agents) = elim a.users [ [] ↦ all_empty agents | u ∷ us ↦ false ]

module _ {N : Type 0} (floats : Floats N) (from to : ℕ) (s : Store N) where
  -- An answer with an item for each agent.
  abbrev pub AnswersAll : Provider → List AgentProfile → Type 0
  AnswersAll provider agents =
      (cs : List (Commission N)) × (commissions_of floats from to provider s agents ≡ some cs)
      × (length cs ≡ length agents)

  answers_next :
      (provider : Provider) (a : AgentProfile) (agents : List AgentProfile)
      (sums : CommissionSums N)
      → sums_of floats from to provider s a.users ≡ ok sums
      → AnswersAll provider agents
      → AnswersAll provider (a ∷ agents)
  unfolding commissions_of
  answers_next provider a agents sums e (cs, h, n) =
      (commission_of floats from to a sums ∷ cs, rw (commissions_of, e, h) refl, ap suc n)

  sport_sums-ok :
      (users : List ℕ)
      → (sums : CommissionSums N) × (sums_of floats from to sport s users ≡ ok sums)
  unfolding sums_of
  sport_sums-ok [] = (no_sums floats from to, refl)
  sport_sums-ok (u ∷ us) = (sport_sums floats from to s (u ∷ us), refl)

  virtual_sums-ok :
      (users : List ℕ)
      → (sums : CommissionSums N) × (sums_of floats from to virtual s users ≡ ok sums)
  unfolding sums_of
  virtual_sums-ok [] = (no_sums floats from to, refl)
  virtual_sums-ok (u ∷ us) = (virtual_sums floats from to s (u ∷ us), refl)

  sport_answers : (agents : List AgentProfile) → AnswersAll sport agents
  unfolding commissions_of
  sport_answers [] = ([], refl, refl)
  sport_answers (a ∷ agents) =
      let (sums, e) = sport_sums-ok a.users in
      answers_next sport a agents sums e (sport_answers agents)

  virtual_answers : (agents : List AgentProfile) → AnswersAll virtual agents
  unfolding commissions_of
  virtual_answers [] = ([], refl, refl)
  virtual_answers (a ∷ agents) =
      let (sums, e) = virtual_sums-ok a.users in
      answers_next virtual a agents sums e (virtual_answers agents)

  casino_answers :
      (agents : List AgentProfile)
      → ((all_empty agents ≡ true) × AnswersAll casino agents)
        ⊎ ((all_empty agents ≡ false) × (commissions_of floats from to casino s agents ≡ none))
  unfolding commissions_of sums_of
  casino_answers [] = let answers : AnswersAll casino [] = ([], refl, refl) in inl (refl, answers)
  casino_answers (a ∷ agents) = elim (List-cases a.users) [
    | inr (u, us, e) ↦ inr (rw e refl, rw (commissions_of, e) refl)
    | inl e ↦ elim (casino_answers agents) [
      | inl (h, answers) ↦
          inl (rw e h, answers_next casino a agents (no_sums floats from to) (rw e refl) answers)
      | inr (h, fails) ↦ inr (rw e h, rw (commissions_of, e, fails) refl)
    ]
  ]

  -- Whatever agents the identity service names, `getCommissions` for sport and for virtual bets answers
  -- with an item for each; for casino it does so if no agent has users, and fails if one has.
  pub get_commissions-AnswersAll :
      (agents : List AgentProfile)
      → AnswersAll sport agents
        × AnswersAll virtual agents
        × (((all_empty agents ≡ true) × AnswersAll casino agents)
            ⊎ ((all_empty agents ≡ false)
                × (get_commissions floats from to casino (ok (some agents)) s ≡ none)))
  unfolding get_commissions
  get_commissions-AnswersAll agents =
      (sport_answers agents, virtual_answers agents, casino_answers agents)
