-- ===== src/Ruleset/First.antt =====
-- usr.sbin/smtpd/ruleset.c: ruleset_match() finds the first rule that does not miss.
use open_smtpd.Base.{◌≡◌, refl, ap, List, [], ◌∷◌, ◌++◌, All, ◌⊎◌, inl, inr}
use open_smtpd.Ruleset.{
  Answer, tempfail, miss, hit, Tables, Rule, Envelope, match_rule, Match, no_rule, again, matched,
  ruleset_match,
}

Answer-cases : (a : Answer) → (a ≡ tempfail) ⊎ ((a ≡ miss) ⊎ (a ≡ hit))
Answer-cases tempfail = inl refl
Answer-cases miss = inr (inl refl)
Answer-cases hit = inr (inr refl)

module _ (t : Tables) (evp : Envelope) where
  -- The rules up to one with the answer `a` all miss.
  abbrev pub FirstWith : Answer → List Rule → Rule → Type 0
  FirstWith a rs r =
      (before : List Rule) × (after : List Rule) × (rs ≡ before ++ (r ∷ after))
      × All (λ b. match_rule t b evp ≡ miss) before
      × (match_rule t r evp ≡ a)

  FirstWith-cons :
      (a : Answer) (b : Rule) (rs : List Rule) (r : Rule)
      → match_rule t b evp ≡ miss
      → FirstWith a rs r
      → FirstWith a (b ∷ rs) r
  FirstWith-cons a b rs r m (before, after, e, all, h) =
      (b ∷ before, after, ap (λ (l : List Rule). b ∷ l) e, (m, all), h)

  -- What each outcome means.
  abbrev pub Explains : List Rule → Match → Type 0
  Explains rs no_rule = All (λ b. match_rule t b evp ≡ miss) rs
  Explains rs again = (r : Rule) × FirstWith tempfail rs r
  Explains rs (matched r) = FirstWith hit rs r

  Explains-cons :
      (b : Rule) (rs : List Rule) (m : Match)
      → match_rule t b evp ≡ miss
      → Explains rs m
      → Explains (b ∷ rs) m
  Explains-cons b rs no_rule e x = (e, x)
  Explains-cons b rs again e (r, x) = (r, FirstWith-cons tempfail b rs r e x)
  Explains-cons b rs (matched r) e x = FirstWith-cons hit b rs r e x

  -- ruleset_match() gives a rule that hits, and every rule before it misses; or EAGAIN, and then
  -- there is a rule that fails temporarily, and every rule before it misses; or no rule, and then
  -- every rule misses.
  pub ruleset_match-Explains : (rs : List Rule) → Explains rs (ruleset_match t rs evp)
  unfolding ruleset_match
  ruleset_match-Explains [] = tt
  ruleset_match-Explains (r ∷ rs) = elim (Answer-cases (match_rule t r evp)) [
    | inl e ↦ rw (e, ruleset_match) (r, ([], rs, refl, tt, e))
    | inr (inl e) ↦
        rw (e, ruleset_match)
          (Explains-cons r rs (ruleset_match t rs evp) e (ruleset_match-Explains rs))
    | inr (inr e) ↦ rw (e, ruleset_match) ([], rs, refl, tt, e)
  ]
