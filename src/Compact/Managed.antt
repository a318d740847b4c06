-- ===== src/Compact/Managed.antt =====
-- crates/workflow_engine/src/compact.rs: what a managed conversation keeps.
use tianshu_rs.Base.{
  ℕ, ◌+◌, ◌≤◌, ◌<◌, true, false, ◌≡◌, ◌⊎◌, inl, inr, refl, arith, leb, min, length, drop,
  Bool-cases, ok,
}
use tianshu_rs.Compact.{
  TruncationCompaction, ManagedConversation, compact_by_truncation, estimated_tokens, force_compact,
  compact_if_needed,
}
use tianshu_rs.Compact.Truncation.{IsSummed, truncate-IsLongest}

module _ {Float W : Type 0} (scaled target : ℕ → Float → ℕ) (t : TruncationCompaction)
    (c : ManagedConversation Float W) (w : W) where
  abbrev threshold : ℕ
  threshold = scaled c.config.max_input_tokens c.config.compact_threshold

  abbrev limit : ℕ
  limit = target c.config.max_input_tokens c.config.compact_threshold

  -- A conversation that is compacted by truncation is left as it is where its estimate is within the
  -- threshold. Otherwise it keeps its newest messages, at least the `preserve_recent` newest (or
  -- all), and its estimate then is within the target, or it keeps just these.
  pub compact_if_needed_truncates :
      c.strategy ≡ compact_by_truncation t
      → IsSummed c.counter c.messages
      → let r = compact_if_needed scaled target c w in
        (estimated_tokens c ≤ threshold) × (r ≡ (ok false, c, w))
        ⊎ (threshold < estimated_tokens c)
          × (n : ℕ) × (r ≡ (ok true, record c { messages = drop n c.messages }, w))
          × (n + min t.preserve_recent (length c.messages) ≤ length c.messages)
          × ((estimated_tokens (record c { messages = drop n c.messages }) ≤ limit)
              ⊎ (n + min t.preserve_recent (length c.messages) ≡ length c.messages))
  unfolding compact_if_needed force_compact estimated_tokens compact_by_truncation
  compact_if_needed_truncates strategy s =
      let cut = truncate-IsLongest c.counter t.preserve_recent limit c.messages s in
      elim (Bool-cases (leb (c.counter.count_messages c.messages) threshold)) [
        | inl small ↦ inl (ground (arith, small), rw small refl)
        | inr large ↦ inr (
          ground (arith, large),
          cut.0,
          rw large (rw (strategy, cut.1) refl),
          cut.2,
          elim cut.3 [ inl full ↦ inr (omega (arith, full.1)) | inr longest ↦ inl longest.0 ],
        )
      ]
