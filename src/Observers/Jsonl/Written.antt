-- ===== src/Observers/Jsonl/Written.antt =====
-- crates/workflow_engine_observe/src/jsonl.rs: what the file holds, and which flushes return.
use mathlib.Core.List.{append_assoc, append-nil}
use tianshu_rs.Base.{
  ℕ, String, Bool, true, false, List, [], ◌∷◌, ◌++◌, ◌≡◌, refl, sym, ap, ◌∙◌, arith,
}
use tianshu_rs.Observe.{Event}
use tianshu_rs.Observers.Jsonl.{
  Values, Message, line, flushing, Writer, starting, writing, returned, JsonlObserver, new, push,
  send, send_each, messages_of, begun, observe, open_file, take_event,
}

-- the lines among the messages, and the notifications
abbrev pub lines_of : List Message → List String
lines_of [] = []
lines_of (line text ∷ ms) = text ∷ lines_of ms
lines_of (flushing n ∷ ms) = lines_of ms

abbrev pub flushes_of : List Message → List ℕ
flushes_of [] = []
flushes_of (line text ∷ ms) = flushes_of ms
flushes_of (flushing n ∷ ms) = n ∷ flushes_of ms

module _ {Json Float : Type 0} (values : Values Json Float) where
  -- the messages of the calls, the flushes numbered from `n`
  abbrev pub messages_from : (n : ℕ) → List (Event Json Float) → List Message
  messages_from n [] = []
  messages_from n (e ∷ es) = messages_of values n e ++ messages_from (begun e n) es

  abbrev begun_from : ℕ → List (Event Json Float) → ℕ
  begun_from n [] = n
  begun_from n (e ∷ es) = begun_from (begun e n) es

-- The states that calls and steps of the task lead to, in any order, from a new observer, with the
-- calls made so far. `opened` says whether the file opens, and `lossless` that no write fails.
pub data Runs {Json Float : Type 0} (values : Values Json Float) (opened lossless : Bool)
    : List (Event Json Float) → JsonlObserver → Type 0 where
  begins : Runs values opened lossless [] new
  observes :
      {es : List (Event Json Float)} {o : JsonlObserver} (e : Event Json Float)
      → Runs values opened lossless es o
      → Runs values opened lossless (es ++ e ∷ []) (observe values e o)
  opens :
      {es : List (Event Json Float)} {o : JsonlObserver}
      → Runs values opened lossless es o
      → Runs values opened lossless es (open_file opened o)
  takes :
      {es : List (Event Json Float)} {o : JsonlObserver}
      → Runs values opened lossless es o
      → Runs values opened lossless es (take_event true o)
  loses :
      {es : List (Event Json Float)} {o : JsonlObserver}
      → lossless ≡ false
      → Runs values opened lossless es o
      → Runs values opened lossless es (take_event false o)

lines_of-append : (ms ns : List Message) → lines_of (ms ++ ns) ≡ lines_of ms ++ lines_of ns
lines_of-append [] ns = refl
lines_of-append (line text ∷ ms) ns = ap (◌∷◌ text) (lines_of-append ms ns)
lines_of-append (flushing n ∷ ms) ns = lines_of-append ms ns

flushes_of-append : (ms ns : List Message) → flushes_of (ms ++ ns) ≡ flushes_of ms ++ flushes_of ns
flushes_of-append [] ns = refl
flushes_of-append (line text ∷ ms) ns = flushes_of-append ms ns
flushes_of-append (flushing n ∷ ms) ns = ap (◌∷◌ n) (flushes_of-append ms ns)

-- The task is at work, and has handled the messages but for those of the queue.
abbrev pub IsAtWork : Writer → Type 0
IsAtWork returned = true ≡ false
IsAtWork _ = Unit

abbrev pub IsWritten : List Message → JsonlObserver → Type 0
IsWritten ms o =
    (part : List Message) × (ms ≡ part ++ o.queue)
    × (o.file ≡ lines_of part)
    × (o.notified ≡ flushes_of part)
    × IsAtWork o.writer

push-at_work :
    (w : Writer) (m : Message) (queue : List Message)
    → IsAtWork w
    → push w m queue ≡ queue ++ m ∷ []
push-at_work starting m queue h = refl
push-at_work writing m queue h = refl
push-at_work returned m queue h = absurd (ground (arith, h))

send-IsWritten :
    (m : Message) (ms : List Message) (o : JsonlObserver)
    → IsWritten ms o
    → IsWritten (ms ++ m ∷ []) (send m o)
unfolding send
send-IsWritten m ms o (part, all, file, notified, works) =
    let more = ap (λ l. l ++ m ∷ []) all ∙ append_assoc part o.queue (m ∷ []) in
    (part, rw (push-at_work o.writer m o.queue works) more, file, notified, works)

send_each-IsWritten :
    (ns ms : List Message) (o : JsonlObserver)
    → IsWritten ms o
    → IsWritten (ms ++ ns) (send_each ns o)
unfolding send_each
send_each-IsWritten [] ms o h = rw (append-nil ms) h
send_each-IsWritten (m ∷ ns) ms o h =
    let rest = send_each-IsWritten ns (ms ++ m ∷ []) (send m o) (send-IsWritten m ms o h) in
    rw (append_assoc ms (m ∷ []) ns) at rest

module _ (file : List String) (notified : List ℕ) (n : ℕ) where
  abbrev pub with_writer : Writer → List Message → JsonlObserver
  with_writer w queue = record {
    writer = w;
    queue = queue;
    file = file;
    notified = notified;
    flushes = n;
  }

  opened-flushes :
      (opened : Bool) (w : Writer) (queue : List Message)
      → (open_file opened (with_writer w queue)).flushes ≡ n
  unfolding open_file
  opened-flushes true starting queue = refl
  opened-flushes false starting queue = refl
  opened-flushes opened writing queue = refl
  opened-flushes opened returned queue = refl

  taken-flushes :
      (written : Bool) (w : Writer) (queue : List Message)
      → (take_event written (with_writer w queue)).flushes ≡ n
  unfolding take_event
  taken-flushes written starting queue = refl
  taken-flushes written returned queue = refl
  taken-flushes written writing [] = refl
  taken-flushes true writing (line text ∷ queue) = refl
  taken-flushes false writing (line text ∷ queue) = refl
  taken-flushes written writing (flushing k ∷ queue) = refl

  opened-IsWritten :
      (ms : List Message) (w : Writer) (queue : List Message)
      → IsWritten ms (with_writer w queue)
      → IsWritten ms (open_file true (with_writer w queue))
  unfolding open_file
  opened-IsWritten ms starting queue h = h
  opened-IsWritten ms writing queue h = h
  opened-IsWritten ms returned queue h = h

  taken-IsWritten :
      (ms : List Message) (w : Writer) (queue : List Message)
      → IsWritten ms (with_writer w queue)
      → IsWritten ms (take_event true (with_writer w queue))
  unfolding take_event
  taken-IsWritten ms starting queue h = h
  taken-IsWritten ms returned queue h = h
  taken-IsWritten ms writing [] h = h
  taken-IsWritten ms writing (line text ∷ queue) (part, all, wrote, told, works) = (
    part ++ line text ∷ [],
    all ∙ sym (append_assoc part (line text ∷ []) queue),
    ap (λ l. l ++ text ∷ []) wrote ∙ sym (lines_of-append part (line text ∷ [])),
    told ∙ sym (flushes_of-append part (line text ∷ []) ∙ append-nil (flushes_of part)),
    works,
  )
  taken-IsWritten ms writing (flushing k ∷ queue) (part, all, wrote, told, works) = (
    part ++ flushing k ∷ [],
    all ∙ sym (append_assoc part (flushing k ∷ []) queue),
    wrote ∙ sym (lines_of-append part (flushing k ∷ []) ∙ append-nil (lines_of part)),
    ap (λ l. l ++ k ∷ []) told ∙ sym (flushes_of-append part (flushing k ∷ [])),
    works,
  )

module _ {Json Float : Type 0} (values : Values Json Float) where
  messages_from-append :
      (n : ℕ) (es : List (Event Json Float)) (e : Event Json Float)
      → messages_from values n (es ++ e ∷ [])
        ≡ messages_from values n es ++ messages_of values (begun_from values n es) e
  messages_from-append n [] e = append-nil (messages_of values n e)
  messages_from-append n (d ∷ es) e =
      ap (λ l. messages_of values n d ++ l) (messages_from-append (begun d n) es e)
      ∙ sym (append_assoc (messages_of values n d) (messages_from values (begun d n) es) _)

  begun_from-append :
      (n : ℕ) (es : List (Event Json Float)) (e : Event Json Float)
      → begun_from values n (es ++ e ∷ []) ≡ begun e (begun_from values n es)
  begun_from-append n [] e = refl
  begun_from-append n (d ∷ es) e = begun_from-append (begun d n) es e

  begun-Runs :
      {opened lossless : Bool} {es : List (Event Json Float)} {o : JsonlObserver}
      → Runs values opened lossless es o
      → o.flushes ≡ begun_from values 0 es
  unfolding new observe
  begun-Runs begins = refl
  begun-Runs (observes {es} {o} e r) = ap (begun e) (begun-Runs r) ∙ sym (begun_from-append 0 es e)
  begun-Runs {opened} (opens {o = o} r) =
      opened-flushes o.file o.notified o.flushes opened o.writer o.queue ∙ begun-Runs r
  begun-Runs (takes {o = o} r) =
      taken-flushes o.file o.notified o.flushes true o.writer o.queue ∙ begun-Runs r
  begun-Runs (loses {o = o} h r) =
      taken-flushes o.file o.notified o.flushes false o.writer o.queue ∙ begun-Runs r

  -- Where the file opens and no write fails, the file holds, in order, the lines of a first part of
  -- what the calls have sent, whatever the order of the steps is, and the flushes that return are
  -- those of that part: when a flush returns, every line sent before it is in the file.
  pub Runs-IsWritten :
      {es : List (Event Json Float)} {o : JsonlObserver}
      → Runs values true true es o
      → (part : List Message) × (messages_from values 0 es ≡ part ++ o.queue)
        × (o.file ≡ lines_of part)
        × (o.notified ≡ flushes_of part)
        × IsAtWork o.writer
  unfolding new observe
  Runs-IsWritten begins = ([], refl, refl, refl, tt)
  Runs-IsWritten (observes {es} {o} e r) =
      let sent =
        send_each-IsWritten (messages_of values o.flushes e) (messages_from values 0 es) o
          (Runs-IsWritten r) in
      rw (messages_from-append 0 es e, ← begun-Runs r) sent
  Runs-IsWritten (opens {es} {o} r) =
      opened-IsWritten o.file o.notified o.flushes (messages_from values 0 es) o.writer o.queue
        (Runs-IsWritten r)
  Runs-IsWritten (takes {es} {o} r) =
      taken-IsWritten o.file o.notified o.flushes (messages_from values 0 es) o.writer o.queue
        (Runs-IsWritten r)
  Runs-IsWritten (loses h r) = absurd (ground (arith, h))
