-- ===== src/LiveExecutor/Gas.antt =====
-- The gate of zero/live_executor.py and the cap on the gas of a day.
use flash_loan.Prelude.{
  ◌≡◌, ◌∙◌, refl, ap, subst, Bool, true, false, Option, List, [], ◌∷◌, ◌++◌, arith, if◌then◌else◌,
}
use flash_loan.Prelude.Results.{error, Outcome, if-Outcome}
use flash_loan.Prelude.Sort.{keep}
use flash_loan.Float.{FloatOps}
use flash_loan.LiveExecutor.{
  Denial, kill_switch, net_below_min, notional_above_cap, gas_cap_reached, LiveConfig,
  LiveCandidate, PassReport, GasEntry, or_zero_usd, load_gas_log, is_recent, sum_usd, gas_spent_24h,
  record_gas_spend, check_gate,
}

module _ {A : Type 0} (p : A → Bool) where
  keep-append : (xs ys : List A) → keep p (xs ++ ys) ≡ keep p xs ++ keep p ys
  keep-append [] ys = refl
  keep-append (x ∷ xs) ys = ground (arith, keep-append xs ys)

  keep-keep : (xs : List A) → keep p (keep p xs) ≡ keep p xs
  keep-keep [] = refl
  keep-keep (x ∷ xs) = ground (arith, keep-keep xs)

module _ (fl : FloatOps) (round6 : fl.Float → fl.Float) (day now : fl.Float) where
  open fl use {Float, zero_f, flt, fle, fadd, fsub}

  sum_usd-append :
      (acc : Float) (es : List (GasEntry fl)) (e : GasEntry fl)
      → sum_usd fl acc (es ++ e ∷ []) ≡ fadd (sum_usd fl acc es) e.usd
  unfolding sum_usd
  sum_usd-append acc [] e = refl
  sum_usd-append acc (x ∷ es) e = sum_usd-append (fadd acc x.usd) es e

  -- What was spent just now is added to what was spent in the last day.
  gas_spent-record :
      (usd : Float) (file : Option (List (GasEntry fl)))
      → fle (fsub now day) now ≡ true
      → gas_spent_24h fl day now (record_gas_spend fl round6 true day usd now file).0
        ≡ fadd (gas_spent_24h fl day now file) (round6 usd)
  gas_spent-record usd file h =
      let recent = is_recent fl day now in
      let log = load_gas_log fl file in
      let e : GasEntry fl = record { at = now; usd = round6 usd } in
      let last : keep recent (e ∷ []) ≡ e ∷ [] = rw h refl in
      ap (sum_usd fl zero_f) (
        keep-keep recent (log ++ e ∷ [])
        ∙ (keep-append recent log (e ∷ []) ∙ ap (λ zs. keep recent log ++ zs) last))
      ∙ sum_usd-append zero_f (keep recent log) e

  module _ (killed : Bool) (c : LiveCandidate fl) (cfg : LiveConfig fl) where
    -- A denial names a limit that the candidate breaks, and it keeps all limits before that one.
    abbrev pub Denies : Float → Denial → Type 0
    Denies spent kill_switch = killed ≡ true
    Denies spent net_below_min =
        (killed ≡ false) × (flt (or_zero_usd fl c.expected_net_usd) cfg.min_net_usd ≡ true)
    Denies spent notional_above_cap =
        (killed ≡ false)
        × (flt (or_zero_usd fl c.expected_net_usd) cfg.min_net_usd ≡ false)
        × (flt cfg.max_notional_usd (or_zero_usd fl c.notional_usd) ≡ true)
    Denies spent gas_cap_reached =
        (killed ≡ false)
        × (flt (or_zero_usd fl c.expected_net_usd) cfg.min_net_usd ≡ false)
        × (flt cfg.max_notional_usd (or_zero_usd fl c.notional_usd) ≡ false)
        × (fle cfg.daily_gas_cap_usd spent ≡ true)

    -- A candidate that passes breaks none, and is reported as it is.
    abbrev pub Passes : Float → PassReport fl → Type 0
    Passes spent r =
        (killed ≡ false)
        × (r.report_net ≡ or_zero_usd fl c.expected_net_usd)
        × (flt r.report_net cfg.min_net_usd ≡ false)
        × (r.report_notional ≡ or_zero_usd fl c.notional_usd)
        × (flt cfg.max_notional_usd r.report_notional ≡ false)
        × (r.report_gas_spent ≡ spent)
        × (fle cfg.daily_gas_cap_usd r.report_gas_spent ≡ false)

    check_gate-Verdict :
        (file : Option (List (GasEntry fl)))
        → Outcome
            (Denies (gas_spent_24h fl day now file))
            (Passes (gas_spent_24h fl day now file))
            (check_gate fl day killed c cfg now file)
    unfolding check_gate
    check_gate-Verdict file =
        let spent = gas_spent_24h fl day now file in
        let P = Denies spent in
        let Q = Passes spent in
        if-Outcome P Q killed (error kill_switch) _ (λ k. k)
          (λ k.
            if-Outcome P Q (flt (or_zero_usd fl c.expected_net_usd) cfg.min_net_usd)
              (error net_below_min) _ (λ low. (k, low))
              (λ net.
                if-Outcome P Q (flt cfg.max_notional_usd (or_zero_usd fl c.notional_usd))
                  (error notional_above_cap) _ (λ high. (k, net, high))
                  (λ notional.
                    if-Outcome P Q (fle cfg.daily_gas_cap_usd spent) (error gas_cap_reached) _
                      (λ full. (k, net, notional, full))
                      (λ gas. (k, refl, net, refl, notional, refl, gas)))))

    -- What the gate counts after a call of `record_gas_spend`.
    abbrev pub spent_with : Bool → Float → Option (List (GasEntry fl)) → Float
    spent_with writes usd file =
        let before = gas_spent_24h fl day now file in
        if writes then fadd before (round6 usd) else before

    spent-record :
        (writes : Bool) (usd : Float) (file : Option (List (GasEntry fl)))
        → fle (fsub now day) now ≡ true
        → gas_spent_24h fl day now (record_gas_spend fl round6 writes day usd now file).0
          ≡ spent_with writes usd file
    spent-record true usd file h = gas_spent-record usd file h
    spent-record false usd file h = refl

    -- Right after an amount of gas was recorded, whatever the log held and even if it could not be
    -- read, the gate counts the rounded amount and what was spent in the day before; if the log could
    -- not be written it counts only the latter. With that it denies a candidate for the first limit
    -- that it breaks, in the order of the kill switch, the least net, the notional and the gas, and
    -- passes it only if the kill switch is off, the net and the notional are within their limits and
    -- the gas of the day is below its cap.
    pub check_gate-record :
        (writes : Bool) (usd : Float) (file : Option (List (GasEntry fl)))
        → fle (fsub now day) now ≡ true
        → Outcome (Denies (spent_with writes usd file)) (Passes (spent_with writes usd file)) (
            check_gate fl day killed c cfg now
              (record_gas_spend fl round6 writes day usd now file).0)
    check_gate-record writes usd file h =
        let file' = (record_gas_spend fl round6 writes day usd now file).0 in
        subst
          (λ spent.
            Outcome (Denies spent) (Passes spent) (check_gate fl day killed c cfg now file'))
          (spent-record writes usd file h) (check_gate-Verdict file')
