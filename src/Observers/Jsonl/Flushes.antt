-- ===== src/Observers/Jsonl/Flushes.antt =====
-- crates/workflow_engine_observe/src/jsonl.rs: that a flush returns where the file is open, and that
-- none does where it cannot be opened.
use mathlib.Core.List.{append-nil}
use tianshu_rs.Base.{
  ℕ, zero, suc, String, Bool, true, false, List, [], ◌∷◌, ◌++◌, ◌≡◌, refl, sym, ap, ◌∙◌, arith,
  length,
}
use tianshu_rs.Observe.{Event}
use tianshu_rs.Observers.Jsonl.{
  Values, Message, line, flushing, Writer, starting, writing, returned, JsonlObserver, new, send,
  send_each, observe, open_file, take_event, messages_of,
}
use tianshu_rs.Observers.Jsonl.Written.{
  Runs, begins, observes, opens, takes, loses, lines_of, flushes_of, messages_from, IsAtWork,
  Runs-IsWritten, with_writer,
}

-- so many steps of the task
abbrev pub take_each : ℕ → JsonlObserver → JsonlObserver
take_each zero o = o
take_each (suc n) o = take_each n (take_event true o)

abbrev IsClosed : Writer → Type 0
IsClosed writing = true ≡ false
IsClosed _ = Unit

-- The task has not opened the file, and has not written or notified.
abbrev IsSilent : JsonlObserver → Type 0
IsSilent o = IsClosed o.writer × (o.file ≡ []) × (o.notified ≡ [])

send_each-IsSilent :
    (ms : List Message) (o : JsonlObserver) → IsSilent o → IsSilent (send_each ms o)
unfolding send_each send
send_each-IsSilent [] o h = h
send_each-IsSilent (m ∷ ms) o h = send_each-IsSilent ms (send m o) h

module _ (file : List String) (notified : List ℕ) (n : ℕ) where
  opened-IsSilent :
      (w : Writer) (queue : List Message)
      → IsSilent (with_writer file notified n w queue)
      → IsSilent (open_file false (with_writer file notified n w queue))
  unfolding open_file
  opened-IsSilent starting queue h = h
  opened-IsSilent writing queue h = h
  opened-IsSilent returned queue h = h

  taken-IsSilent :
      (written : Bool) (w : Writer) (queue : List Message)
      → IsSilent (with_writer file notified n w queue)
      → IsSilent (take_event written (with_writer file notified n w queue))
  unfolding take_event
  taken-IsSilent written starting queue h = h
  taken-IsSilent written writing queue h = absurd (ground (arith, h.0))
  taken-IsSilent written returned queue h = h

  opened-writing :
      (w : Writer) (queue : List Message)
      → IsAtWork w
      → open_file true (with_writer file notified n w queue)
        ≡ with_writer file notified n writing queue
  unfolding open_file
  opened-writing starting queue h = refl
  opened-writing writing queue h = refl
  opened-writing returned queue h = absurd (ground (arith, h))

take_each-empties :
    (queue : List Message) (file : List String) (notified : List ℕ) (n : ℕ)
    → (take_each (length queue) (with_writer file notified n writing queue)).queue ≡ []
unfolding take_event
take_each-empties [] file notified n = refl
take_each-empties (line text ∷ queue) file notified n =
    take_each-empties queue (file ++ text ∷ []) notified n
take_each-empties (flushing k ∷ queue) file notified n =
    take_each-empties queue file (notified ++ k ∷ []) n

module _ {Json Float : Type 0} (values : Values Json Float) where
  take_each-Runs :
      (n : ℕ) {es : List (Event Json Float)} {o : JsonlObserver}
      → Runs values true true es o
      → Runs values true true es (take_each n o)
  take_each-Runs zero r = r
  take_each-Runs (suc n) r = take_each-Runs n (takes r)

  -- Where the file opens and no write fails, the task can always finish: with a step for each event of
  -- the channel it writes every line that was sent, in order, and every flush that was begun returns.
  pub Runs-drain :
      {es : List (Event Json Float)} {o : JsonlObserver}
      → Runs values true true es o
      → let after = take_each (length o.queue) (open_file true o) in
        Runs values true true es after
        × (after.file ≡ lines_of (messages_from values 0 es))
        × (after.notified ≡ flushes_of (messages_from values 0 es))
  Runs-drain {es} {o} r =
      let later = take_each-Runs (length o.queue) (opens r) in
      let (before, all_before, wrote_before, told_before, works) = Runs-IsWritten values r in
      let empty =
        ap (λ p. (take_each (length o.queue) p).queue)
          (opened-writing o.file o.notified o.flushes o.writer o.queue works)
        ∙ take_each-empties o.queue o.file o.notified o.flushes in
      let (part, all, wrote, told, at_work) = Runs-IsWritten values later in
      let whole = all ∙ ap (λ l. part ++ l) empty ∙ append-nil part in
      (later, wrote ∙ ap lines_of (sym whole), told ∙ ap flushes_of (sym whole))

  silent :
      {lossless : Bool} {es : List (Event Json Float)} {o : JsonlObserver}
      → Runs values false lossless es o
      → IsSilent o
  unfolding new observe
  silent begins = (tt, refl, refl)
  silent (observes {o = o} e r) = send_each-IsSilent (messages_of values o.flushes e) o (silent r)
  silent (opens {o = o} r) = opened-IsSilent o.file o.notified o.flushes o.writer o.queue (silent r)
  silent (takes {o = o} r) =
      taken-IsSilent o.file o.notified o.flushes true o.writer o.queue (silent r)
  silent (loses {o = o} h r) =
      taken-IsSilent o.file o.notified o.flushes false o.writer o.queue (silent r)

  -- Where the file cannot be opened, no flush ever returns and nothing is written, whatever calls are
  -- made.
  pub Runs-silent :
      {lossless : Bool} {es : List (Event Json Float)} {o : JsonlObserver}
      → Runs values false lossless es o
      → (o.notified ≡ []) × (o.file ≡ [])
  Runs-silent r = let h = silent r in (h.2, h.1)
