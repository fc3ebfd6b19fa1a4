-- ===== src/Ruleset/Negation.antt =====
-- usr.sbin/smtpd/ruleset.c: negated criteria.
use open_smtpd.Base.{
  ◌≡◌, Bool, true, false, Option, none, some, ◌&&◌, ◌||◌, not, arith, ◌⊎◌, inl, inr, Bool-cases,
}
use open_smtpd.Ruleset.{
  Answer, tempfail, miss, hit, on, negated, Tables, Rule, Envelope, match_result, from_key,
  from_rdns, from_address, ruleset_match_from, same_text, codes,
}

abbrev pub opposite : Answer → Answer
opposite tempfail = tempfail
opposite miss = hit
opposite hit = miss

abbrev pub is_none {ℓ} : {A : Type ℓ} → Option A → Bool
is_none none = true
is_none (some a) = false

-- The peers that a `from` criterion leaves out without a lookup: an envelope of an internal
-- expansion, where there is no table; and for `from rdns <table>` a peer that has no name.
abbrev pub left_out : Rule → Envelope → Bool
left_out r evp =
    (evp.ef_internal && is_none r.table_from)
    || (not evp.ef_internal
        && (r.flag_from_rdns
            && (not (is_none r.table_from) && same_text evp.hostname (codes "<unknown>"))))

-- Of a `from` criterion and its negation, both answer 0 for the peers that are left out. For every
-- other peer the negation answers the opposite, and -1 where the plain criterion does.
pub from-negated :
    (t : Tables) (r : Rule) (evp : Envelope)
    → ((left_out r evp ≡ true)
        × (ruleset_match_from t (record r { flag_from = on }) evp ≡ miss)
        × (ruleset_match_from t (record r { flag_from = negated }) evp ≡ miss))
      ⊎ ((left_out r evp ≡ false)
          × (ruleset_match_from t (record r { flag_from = negated }) evp
              ≡ opposite (ruleset_match_from t (record r { flag_from = on }) evp)))
unfolding ruleset_match_from from_rdns from_address from_key match_result
from-negated t r evp = elim (Bool-cases (left_out r evp)) [
  | inl out ↦ inl (out, ground arith, ground arith)
  | inr looked ↦ inr (looked, ground arith)
]
