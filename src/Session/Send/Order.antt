-- ===== src/Session/Send/Order.antt =====
-- Who sends, and in which order (`InsertSendQueue`, `Send`, `CheckSendComplete` of
-- jhshin_Server/jhshin_Server/SessionData.cpp).
use jhshin_server.Common.{
  ℕ, zero, suc, ◌<◌, ◌≡◌, refl, sym, ap, subst, ◌∙◌, ◌⊎◌, inl, inr, Bool, true, false, List, [],
  ◌∷◌, ◌++◌, append_assoc, append-nil, length, if◌then◌else◌, arith, Bool-cases,
}
use jhshin_server.Session.Send.{
  Phase, clears, drains, looks, posts, gives_up, lowers, waits, checks, SendSide, is_empty,
  insert_send_queue, section, ahead, turn, Event, insert, goes_on, step, run, fresh, inserted,
}

module _ {C : Type 0} where
  -- All that was inserted is given away or waits in the queue, in order.
  abbrev Queued : List C → SendSide C → Type 0
  Queued all s = s.given ++ s.send_queue ≡ all

  -- A batch in hand is between the two.
  abbrev InHand : List C → SendSide C → Type 0
  InHand all s = (s.given ++ (s.send ++ s.send_queue) ≡ all) × (is_empty s.send ≡ false)

  -- What holds of the session while an activity is at a phase.
  abbrev At : Phase → List C → SendSide C → Type 0
  At clears all s = Queued all s × (is_empty s.send_queue ≡ false)
  At drains all s = Queued all s × (is_empty s.send_queue ≡ false) × (s.send ≡ [])
  At looks all s = InHand all s
  At posts all s = InHand all s
  At gives_up all s = Queued all s × (0 < s.refusals)
  At lowers all s = Queued all s × (0 < s.refusals)
  At waits all s = Queued all s
  At checks all s = Queued all s

  -- With the flag down nobody is active, and the queue is empty unless a `WSASend` has failed;
  -- with the flag up there is one activity, or a `WSASend` has completed without success.
  abbrev Fits : Bool → List Phase → List C → SendSide C → Type 0
  Fits false [] all s = Queued all s × ((s.send_queue ≡ []) ⊎ (0 < s.refusals))
  Fits true (p ∷ []) all s = At p all s
  Fits true [] all s = Queued all s × (0 < s.failures)
  Fits true (p ∷ q ∷ ps) all s = ⊥
  Fits false (p ∷ ps) all s = ⊥

  -- The state at its own flag.
  abbrev FitsNow : List C → SendSide C × List Phase → Type 0
  FitsNow all (s, ps) = Fits s.send_flag ps all s

  nil_of_empty : (xs : List C) → is_empty xs ≡ true → xs ≡ []
  nil_of_empty [] e = refl
  nil_of_empty (x ∷ xs) e = cc

  not_empty : (xs : List C) (c : C) → is_empty (xs ++ c ∷ []) ≡ false
  not_empty [] c = refl
  not_empty (x ∷ xs) c = refl

  grows : (xs ys all : List C) (c : C) → xs ++ ys ≡ all → xs ++ (ys ++ c ∷ []) ≡ all ++ c ∷ []
  grows xs ys all c e = sym (append_assoc xs ys (c ∷ [])) ∙ ap (λ l. l ++ c ∷ []) e

  module _ (all : List C) (c : C) (s : SendSide C) where
    abbrev longer : Bool → SendSide C
    longer b = record s { send_queue = s.send_queue ++ c ∷ []; send_flag = b }

    InHand-grows : (b : Bool) → InHand all s → InHand (all ++ c ∷ []) (longer b)
    InHand-grows b h = (
      ap (λ l. s.given ++ l) (sym (append_assoc s.send s.send_queue (c ∷ [])))
          ∙ grows s.given (s.send ++ s.send_queue) all c h.0,
      h.1,
    )

    -- An insertion does not disturb an activity.
    At-insert : (b : Bool) (p : Phase) → At p all s → At p (all ++ c ∷ []) (longer b)
    At-insert b clears h = (grows _ _ all c h.0, not_empty s.send_queue c)
    At-insert b drains h = (grows _ _ all c h.0, not_empty s.send_queue c, h.2)
    At-insert b looks h = InHand-grows b h
    At-insert b posts h = InHand-grows b h
    At-insert b gives_up h = (grows _ _ all c h.0, h.1)
    At-insert b lowers h = (grows _ _ all c h.0, h.1)
    At-insert b waits h = grows _ _ all c h
    At-insert b checks h = grows _ _ all c h

    insert-FitsNow :
        (b : Bool) (ps : List Phase)
        → s.send_flag ≡ b
        → Fits b ps all s
        → FitsNow (all ++ c ∷ []) (step (insert c) (s, ps))
    unfolding step insert_send_queue
    insert-FitsNow false [] e h =
        rw e (grows s.given s.send_queue all c h.0, not_empty s.send_queue c)
    insert-FitsNow true (p ∷ []) e h = rw e (At-insert true p h)
    insert-FitsNow true [] e h = rw e (grows s.given s.send_queue all c h.0, h.1)
    insert-FitsNow true (p ∷ q ∷ ps) e h = absurd h
    insert-FitsNow false (p ∷ ps) e h = absurd h

  module _ (all : List C) (s : SendSide C) where
    abbrev after : Bool → Phase → SendSide C × List Phase
    after ok p = let (s', next) = section ok p s in (s', ahead next [])

    -- A batch is handed over.
    handed_over : InHand all s → (s.given ++ s.send) ++ s.send_queue ≡ all
    handed_over h = append_assoc s.given s.send s.send_queue ∙ h.0

    taken : s.send ≡ [] → Queued all s → s.given ++ ((s.send ++ s.send_queue) ++ []) ≡ all
    taken e h =
        ap (λ l. s.given ++ l) (append-nil (s.send ++ s.send_queue) ∙ ap (λ l. l ++ s.send_queue) e)
        ∙ h

    -- One section keeps what holds; the flag goes down only with the activity.
    after-FitsNow :
        (ok : Bool) (p : Phase) → s.send_flag ≡ true → At p all s → FitsNow all (after ok p)
    unfolding section
    after-FitsNow ok clears e h = rw e (h.0, h.1, refl)
    after-FitsNow ok drains e h =
        rw e (taken h.2 h.0, ap (λ l. is_empty (l ++ s.send_queue)) h.2 ∙ h.1)
    after-FitsNow ok looks e h = rw (h.1, e) h
    after-FitsNow true posts e h = rw e (handed_over h)
    after-FitsNow false posts e h = rw e (handed_over h, omega arith)
    after-FitsNow ok gives_up e h = rw e h
    after-FitsNow ok lowers e h = (h.0, inr h.1)
    after-FitsNow true waits e h = rw e h
    after-FitsNow false waits e h = rw e (h, omega arith)
    after-FitsNow ok checks e h = elim (Bool-cases (is_empty s.send_queue)) [
      | inl none_left ↦ rw none_left (h, inl (nil_of_empty s.send_queue none_left))
      | inr more ↦ rw (more, e) (h, more)
    ]

    turn-FitsNow :
        (i : ℕ) (ok b : Bool) (ps : List Phase)
        → s.send_flag ≡ b
        → Fits b ps all s
        → FitsNow all (turn i ok ps s)
    unfolding turn
    turn-FitsNow i ok false [] e h = rw e h
    turn-FitsNow zero ok true (p ∷ []) e h = after-FitsNow ok p e h
    turn-FitsNow (suc i) ok true (p ∷ []) e h = subst (λ b. Fits b (p ∷ []) all s) (sym e) h
    turn-FitsNow i ok true [] e h = rw e h
    turn-FitsNow i ok true (p ∷ q ∷ ps) e h = absurd h
    turn-FitsNow i ok false (p ∷ ps) e h = absurd h

  -- Whatever happens in whatever order.
  run-FitsNow :
      (es : List (Event C)) (all : List C) (x : SendSide C × List Phase)
      → FitsNow all x
      → FitsNow (all ++ inserted es) (run es x)
  unfolding run step
  run-FitsNow [] all x h = subst (λ l. FitsNow l x) (sym (append-nil all)) h
  run-FitsNow (insert c ∷ es) all (s, ps) h =
      subst (λ l. FitsNow l (run es (step (insert c) (s, ps))))
        (append_assoc all (c ∷ []) (inserted es))
        (run-FitsNow es (all ++ c ∷ []) _ (insert-FitsNow all c s s.send_flag ps refl h))
  run-FitsNow (goes_on i ok ∷ es) all (s, ps) h =
      run-FitsNow es all _ (turn-FitsNow all s i ok s.send_flag ps refl h)

  fresh-FitsNow : FitsNow [] (fresh {C = C})
  fresh-FitsNow = (refl, inl refl)

  -- One activity while the flag is up, none while it is down; or, after a `WSASend` that completed
  -- without success, none though it is up.
  abbrev pub OneActivity : SendSide C × List Phase → Type 0
  OneActivity (s, ps) =
      (length ps ≡ (if s.send_flag then 1 else 0))
      ⊎ ((ps ≡ []) × (s.send_flag ≡ true) × (0 < s.failures))

  Fits-OneActivity :
      (b : Bool) (ps : List Phase) (all : List C) (s : SendSide C)
      → s.send_flag ≡ b
      → Fits b ps all s
      → OneActivity (s, ps)
  Fits-OneActivity false [] all s e h = inl (rw e refl)
  Fits-OneActivity true (p ∷ []) all s e h = inl (rw e refl)
  Fits-OneActivity true [] all s e h = inr (refl, e, h.1)
  Fits-OneActivity true (p ∷ q ∷ ps) all s e h = absurd h
  Fits-OneActivity false (p ∷ ps) all s e h = absurd h

  -- However calls of `InsertSendQueue` and the sections of `Send`, `CheckSendComplete` and of the
  -- completions interleave on a fresh session: there is one activity while `m_SendFlag` is set
  -- and none while it is not, or a `WSASend` has completed without success, the flag is up and
  -- there is no activity. An activity is a thread that has still to clear or fill `m_Send`, to
  -- call `WSASend` or to lower the flag, or a `WSASend` whose completion has not been handled; so
  -- no two threads work on `m_Send`, and no `WSASend` is called while another is under way.
  pub run-OneActivity : (es : List (Event C)) → OneActivity (run es fresh)
  run-OneActivity es =
      Fits-OneActivity _ _ (inserted es) _ refl (run-FitsNow es [] fresh fresh-FitsNow)

  -- What a session has not handed over yet.
  At-given :
      (p : Phase) (all : List C) (s : SendSide C)
      → At p all s
      → (rest : List C) × (s.given ++ rest ≡ all)
  At-given clears all s h = (s.send_queue, h.0)
  At-given drains all s h = (s.send_queue, h.0)
  At-given looks all s h = (s.send ++ s.send_queue, h.0)
  At-given posts all s h = (s.send ++ s.send_queue, h.0)
  At-given gives_up all s h = (s.send_queue, h.0)
  At-given lowers all s h = (s.send_queue, h.0)
  At-given waits all s h = (s.send_queue, h)
  At-given checks all s h = (s.send_queue, h)

  Fits-given :
      (b : Bool) (ps : List Phase) (all : List C) (s : SendSide C)
      → Fits b ps all s
      → (rest : List C) × (s.given ++ rest ≡ all)
  Fits-given false [] all s h = (s.send_queue, h.0)
  Fits-given true (p ∷ []) all s h = At-given p all s h
  Fits-given true [] all s h = (s.send_queue, h.0)
  Fits-given true (p ∷ q ∷ ps) all s h = absurd h
  Fits-given false (p ∷ ps) all s h = absurd h

  -- In any interleaving on a fresh session, what was handed to `WSASend` so far is, batch behind
  -- batch, the beginning of what was inserted, in the order of the insertions: no chunk is sent
  -- twice, passed over or overtaken.
  pub run-given :
      (es : List (Event C)) → (rest : List C) × ((run es fresh).0.given ++ rest ≡ inserted es)
  run-given es = Fits-given _ _ (inserted es) _ (run-FitsNow es [] fresh fresh-FitsNow)

  Fits-done :
      (ps : List Phase) (all : List C) (s : SendSide C)
      → Fits false ps all s
      → s.refusals ≡ 0
      → s.given ≡ all
  Fits-done [] all s (e, inl nil) none_failed =
      sym (append-nil s.given) ∙ ap (λ l. s.given ++ l) (sym nil) ∙ e
  Fits-done [] all s (e, inr failed) none_failed = absurd (omega arith)
  Fits-done (p ∷ ps) all s h none_failed = absurd h

  -- In any interleaving on a fresh session, when `m_SendFlag` is down and no call of `WSASend`
  -- has failed at once, everything that was inserted has been handed to `WSASend`: no chunk waits
  -- in the queue with nobody to send it.
  pub run-all_given :
      (es : List (Event C))
      → (run es fresh).0.send_flag ≡ false
      → (run es fresh).0.refusals ≡ 0
      → (run es fresh).0.given ≡ inserted es
  run-all_given es down none_failed =
      Fits-done (run es fresh).1 (inserted es) (run es fresh).0
        (subst (λ b. Fits b (run es fresh).1 (inserted es) (run es fresh).0) down
          (run-FitsNow es [] fresh fresh-FitsNow))
        none_failed
