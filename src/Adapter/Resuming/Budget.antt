-- ===== src/Adapter/Resuming/Budget.antt =====
-- reconnectLoop of internal/protocol/adapter_resume.go ends, and within its budget.
use session_proxy.Prelude.{
  ℕ, zero, suc, ◌+◌, ◌-◌, ◌*◌, ◌<◌, ◌≤◌, ◌≡◌, ◌⊎◌, inl, inr, refl, ◌∙◌, Bool, true, false, List, [],
  ◌∷◌, arith, length, All, leb, if◌then◌else◌, if_both,
}
use session_proxy.Adapter.Lifecycle.{
  Link, begin_attempt, fail_attempt, finish_resume, exhaust_budget, end_loop, close_adapter,
  close_with_error, set_close_reason, close_stream,
}
use session_proxy.Adapter.Resuming.{
  Attempt, Outcome, not_resumed, not_dialled, not_opened, opened, adapter_gone, resumed, gave_up,
  Run, call_timeout, backoff, called, reconnect_loop, reconnect, resume_budget, second,
  sleep_resume_backoff,
}

exhaust_budget_done : (l : Link) → (exhaust_budget l).done ≡ true
unfolding exhaust_budget end_loop close_with_error close_stream set_close_reason close_adapter
exhaust_budget_done l = ground arith

end_loop_done : (l : Link) → (end_loop l).done ≡ l.done
unfolding end_loop
end_loop_done l = refl

-- A call starts in the budget, and may take half a minute and not longer than it.
abbrev pub InBudget : ℕ → ℕ × ℕ → Type 0
InBudget deadline (start, timeout) =
    (start < deadline) × (0 < timeout) × (timeout ≤ 30 * second) × (start + timeout ≤ deadline)

-- A dial has the timeout of its attempt, which lies in the budget from its start. Where resumeFunc has
-- kept to it, the dial may take half a minute longer than the budget.
abbrev pub NearBudget : ℕ → ℕ × ℕ × ℕ → Type 0
NearBudget deadline (start, dialled, timeout) =
    InBudget deadline (start, timeout)
    × (dialled ≤ start + timeout → dialled + timeout ≤ deadline + 30 * second)

-- What a run comes to.
pub record Ends (deadline : ℕ) (r : Run) : Type 0 where
  pub outcome :
      ((r.result ≡ resumed) × (r.link.reconnecting ≡ false))
      ⊎ ((r.link.done ≡ true) × ((r.result ≡ adapter_gone) ⊎ (r.result ≡ gave_up)))
  pub calls_in_budget : All (InBudget deadline) r.calls
  pub dials_near_budget : All (NearBudget deadline) r.dials

gave_up-Ends :
    (deadline now : ℕ) (l : Link)
    → Ends deadline (record {
      result = gave_up;
      ended_at = now;
      link = exhaust_budget l;
      calls = [];
      dials = [];
    })
gave_up-Ends deadline now l = record {
  outcome = inr (exhaust_budget_done l, inr refl);
  calls_in_budget = tt;
  dials_near_budget = tt;
}

gone-Ends :
    (deadline now : ℕ) (l : Link)
    → l.done ≡ true
    → Ends deadline (record {
      result = adapter_gone;
      ended_at = now;
      link = end_loop l;
      calls = [];
      dials = [];
    })
gone-Ends deadline now l g = record {
  outcome = inr (end_loop_done l ∙ g, inl refl);
  calls_in_budget = tt;
  dials_near_budget = tt;
}

call_timeout_fits :
    (deadline start : ℕ)
    → start < deadline
    → InBudget deadline (start, call_timeout (deadline - start))
unfolding call_timeout
call_timeout_fits deadline start h = ground (arith, h)

called_both :
    (deadline start : ℕ) (a : Attempt) (r : Run) (calls : List (ℕ × ℕ)) (dials : List (ℕ × ℕ × ℕ))
    → start < deadline
    → Ends deadline r
    → calls ≡ (start, call_timeout (deadline - start)) ∷ r.calls
    → (dials ≡ r.dials)
      ⊎ (dials ≡ (start, start + a.resume_spent, call_timeout (deadline - start)) ∷ r.dials)
    → All (InBudget deadline) calls × All (NearBudget deadline) dials
called_both deadline start a r calls dials h e c (inl d) =
    let fits = call_timeout_fits deadline start h in
    rw (c, d) ((fits, e.calls_in_budget), e.dials_near_budget)
called_both deadline start a r calls dials h e c (inr d) =
    let fits = call_timeout_fits deadline start h in
    rw (c, d)
      ((fits, e.calls_in_budget), ((fits, λ t. omega (arith, t, fits)), e.dials_near_budget))

called-Ends :
    (deadline start : ℕ) (a : Attempt) (r : Run)
    → start < deadline
    → Ends deadline r
    → Ends deadline (called a start (call_timeout (deadline - start)) r)
unfolding called
called-Ends deadline start a r h e =
    let both =
      called_both deadline start a r (called a start (call_timeout (deadline - start)) r).calls
        (called a start (call_timeout (deadline - start)) r).dials h e (ground arith)
        (ground arith) in
    record {
      outcome = ground (arith, e.outcome);
      calls_in_budget = both.0;
      dials_near_budget = both.1;
    }

finish_resume_over : (ws : ℕ) (l : Link) → (finish_resume ws l).reconnecting ≡ false
unfolding finish_resume end_loop
finish_resume_over ws l = refl

-- A pause is as long as NextDelay says, or lasts to the end of the budget.
backoff_advances :
    (deadline behind delay least late more now : ℕ)
    → now ≤ behind
    → least ≤ delay
    → deadline ≤ now + (least + more)
    → deadline ≤ behind + backoff delay (deadline - behind) + late + more
unfolding backoff
backoff_advances deadline behind delay least late more now h l d = ground (arith, h, l, d)

-- What a failed attempt comes to, where the rest of the loop comes to its end.
failed-Ends :
    (deadline behind sleep : ℕ) (first : Bool) (woken : Link) (rest : Run)
    → Ends deadline rest
    → Ends deadline (
        if sleep_resume_backoff sleep first woken then rest else record {
          result = gave_up;
          ended_at = behind;
          link = exhaust_budget woken;
          calls = [];
          dials = [];
        })
unfolding sleep_resume_backoff
failed-Ends deadline behind sleep first woken rest e =
    if_both (Ends deadline) (sleep_resume_backoff sleep first woken) _ _ (λ b. e)
      (λ b. gave_up-Ends deadline behind woken)

tried-Ends :
    (o : Outcome) (deadline behind sleep : ℕ) (first : Bool) (tried woken : Link) (rest : Run)
    → Ends deadline rest
    → Ends deadline (elim o [
      | opened ws ↦ record {
        result = resumed;
        ended_at = behind;
        link = finish_resume ws tried;
        calls = [];
        dials = [];
      }
      | _ ↦ if sleep_resume_backoff sleep first woken then rest else record {
        result = gave_up;
        ended_at = behind;
        link = exhaust_budget woken;
        calls = [];
        dials = [];
      }
    ])
tried-Ends (opened ws) deadline behind sleep first tried woken rest e = record {
  outcome = inl (refl, finish_resume_over ws tried);
  calls_in_budget = tt;
  dials_near_budget = tt;
}
tried-Ends not_resumed deadline behind sleep first tried woken rest e =
    failed-Ends deadline behind sleep first woken rest e
tried-Ends not_dialled deadline behind sleep first tried woken rest e =
    failed-Ends deadline behind sleep first woken rest e
tried-Ends not_opened deadline behind sleep first tried woken rest e =
    failed-Ends deadline behind sleep first woken rest e

-- A round takes one of the rounds that are left.
one_less :
    (n least now deadline : ℕ)
    → now < deadline
    → deadline ≤ now + n * least
    → (0 < n) × (deadline ≤ now + (least + (n - 1) * least))
one_less zero least now deadline l h = absurd (omega arith)
one_less (suc n) least now deadline l h = (omega arith, grind (arith, h))

module _ (deadline least : ℕ) where
  loop-Ends :
      (rounds : List Attempt) (n now : ℕ) (l : Link)
      → All (λ a. least ≤ a.delay) rounds
      → deadline ≤ now + n * least
      → n < length rounds
      → Ends deadline (reconnect_loop deadline rounds now l)
  unfolding reconnect_loop
  loop-Ends [] n now l ds h k = absurd (omega arith)
  loop-Ends (a ∷ more) n now l (d, ds) h k =
      if_both (Ends deadline) (leb deadline now) _ _ (λ t. gave_up-Ends deadline now l)
        (λ t.
          let (pos, left) = one_less n least now deadline (ground (arith, t)) h in
          let behind = now + a.lag + a.resume_spent + a.dial_spent in
          let sleep = backoff a.delay (deadline - behind) in
          let tried = a.during (begin_attempt (a.others l)) in
          let woken = a.asleep (fail_attempt tried) in
          let ends =
            loop-Ends more (n - 1) (behind + sleep + a.late) woken ds
              (backoff_advances deadline behind a.delay least a.late ((n - 1) * least) now
                (omega arith) d left)
              (omega (arith, k, pos)) in
          if_both (Ends deadline) (a.others l).done _ _ (λ g. gone-Ends deadline now (a.others l) g)
            (λ g.
              if_both (Ends deadline) (leb deadline (now + a.lag)) _ _
                (λ u. gave_up-Ends deadline (now + a.lag) (a.others l))
                (λ u.
                  called-Ends deadline (now + a.lag) a _ (ground (arith, u))
                    (tried-Ends a.outcome deadline behind sleep a.timer_first tried woken _ ends))))

-- reconnectLoop comes to its end where NextDelay does not go below some time, of which the rounds
-- make up the budget: the WebSocket is resumed, or the adapter is closed. Each call of resumeFunc
-- starts in the budget, with a timeout that lies in it and is half a minute at most. The dial behind it
-- has the same timeout from its own start: where resumeFunc has kept to its timeout, it lies within
-- half a minute behind the budget.
pub reconnect-Ends :
    (budget least now n : ℕ) (attempts : List Attempt) (l : Link)
    → All (λ a. least ≤ a.delay) attempts
    → resume_budget budget ≤ n * least
    → n < length attempts
    → Ends (now + resume_budget budget) (reconnect budget attempts now l)
unfolding reconnect
reconnect-Ends budget least now n attempts l ds h k =
    loop-Ends (now + resume_budget budget) least attempts n now l ds (omega (arith, h)) k
