-- ===== src/Traffic/Counts.antt =====
-- Stats of internal/trafficlog/store.go against plain counts of the log.
use apexaegis_management_pla.Prelude.{
  ℕ, suc, ◌+◌, ◌≡◌, refl, sym, Bool, false, ◌&&◌, String, List, [], ◌∷◌, ◌==◌, string_eq, arith,
  Bool-cases, inl, inr,
}
use apexaegis_management_pla.Prelude.{subst}
use apexaegis_management_pla.Prelude.Int.{add_int64}
use apexaegis_management_pla.Traffic.{
  Entry, Store, TrafficStats, no_stats, tally_action, tally, counts, stats_from, stats,
  is_detection, bump,
}

-- How many entries pass a test.
abbrev pub number : (Entry → Bool) → List Entry → ℕ
number p [] = 0
number p (e ∷ l) = bump (p e) (number p l)

abbrev pub acts : String → String → Entry → Bool
acts org action e = counts org e && e.action == action

abbrev Fields : TrafficStats → String → Type 0
Fields st action =
    ((tally_action action st).allowed ≡ bump (action == "allow") st.allowed)
    × ((tally_action action st).denied ≡ bump (action == "deny") st.denied)
    × ((tally_action action st).monitored ≡ bump (action == "monitor") st.monitored)
    × ((tally_action action st).isolated ≡ bump (action == "isolate") st.isolated)
    × ((tally_action action st).total_entries ≡ st.total_entries)
    × ((tally_action action st).dlp_violations ≡ st.dlp_violations)
    × ((tally_action action st).atp_detections ≡ st.atp_detections)

-- A property of a string, from that of a literal and of the strings that differ from it.
string_cases : (P : String → Type 0) (s t : String) → P t → ((s == t) ≡ false → P s) → P s
string_cases P s t same other = elim (Bool-cases (s == t)) [
  | inl hit ↦ subst P (sym ((string_eq.beq_iff s t).0 hit)) same
  | inr miss ↦ other miss
]

tally_action-Fields : (st : TrafficStats) (action : String) → Fields st action
tally_action-Fields st action =
    string_cases (Fields st) action "allow" (refl, refl, refl, refl, refl, refl, refl)
      (λ a.
        string_cases (Fields st) action "deny" (refl, refl, refl, refl, refl, refl, refl)
          (λ d.
            string_cases (Fields st) action "monitor" (refl, refl, refl, refl, refl, refl, refl)
              (λ m.
                string_cases (Fields st) action "isolate" (refl, refl, refl, refl, refl, refl, refl)
                  (λ i. rw (a, d, m, i) (refl, refl, refl, refl, refl, refl, refl)))))

-- The counters of the statistics, counted one by one.
pub record IsCounted (org : String) (l : List Entry) (before after : TrafficStats) : Type 0 where
  pub total : after.total_entries ≡ before.total_entries + number (counts org) l
  pub allowed : after.allowed ≡ before.allowed + number (acts org "allow") l
  pub denied : after.denied ≡ before.denied + number (acts org "deny") l
  pub monitored : after.monitored ≡ before.monitored + number (acts org "monitor") l
  pub isolated : after.isolated ≡ before.isolated + number (acts org "isolate") l
  pub violations :
      after.dlp_violations ≡ before.dlp_violations + number (λ e. counts org e && e.dlp_violation) l
  pub detections :
      after.atp_detections
      ≡ before.atp_detections + number (λ e. counts org e && is_detection e.atp_verdict) l

abbrev after_entry : Entry → TrafficStats → TrafficStats
after_entry e st = record st {
  total_entries = suc st.total_entries;
  bytes_sent = add_int64 st.bytes_sent e.bytes_sent;
  bytes_recv = add_int64 st.bytes_recv e.bytes_recv;
}

stats_from-IsCounted :
    (org : String) (l : List Entry) (st : TrafficStats) → IsCounted org l st (stats_from org l st)
unfolding stats_from
stats_from-IsCounted org [] st = record {
  total = omega arith;
  allowed = omega arith;
  denied = omega arith;
  monitored = omega arith;
  isolated = omega arith;
  violations = omega arith;
  detections = omega arith;
}
stats_from-IsCounted org (e ∷ l) st = elim (Bool-cases (counts org e)) [
  | inl hit ↦
      let h = stats_from-IsCounted org l (tally e st) in
      let (a, d, m, i, t, v, x) = tally_action-Fields (after_entry e st) e.action in
      let total = h.total in
      let allowed = h.allowed in
      let denied = h.denied in
      let monitored = h.monitored in
      let isolated = h.isolated in
      let violations = h.violations in
      let detections = h.detections in
      rw hit (record {
        total = ground arith;
        allowed = ground arith;
        denied = ground arith;
        monitored = ground arith;
        isolated = ground arith;
        violations = ground arith;
        detections = ground arith;
      })
  | inr miss ↦
      let h = stats_from-IsCounted org l st in
      let total = h.total in
      let allowed = h.allowed in
      let denied = h.denied in
      let monitored = h.monitored in
      let isolated = h.isolated in
      let violations = h.violations in
      let detections = h.detections in
      rw miss (record {
        total = ground arith;
        allowed = ground arith;
        denied = ground arith;
        monitored = ground arith;
        isolated = ground arith;
        violations = ground arith;
        detections = ground arith;
      })
]

-- The counters that Stats returns are the numbers of the log's entries of the organization, or of
-- all where none is named, and of those that were allowed, denied, monitored and isolated, violate
-- data loss prevention or carry a verdict other than clean.
pub stats-IsCounted : (s : Store) (org : String) → IsCounted org s.entries no_stats (stats s org)
unfolding stats
stats-IsCounted s org = stats_from-IsCounted org s.entries no_stats
