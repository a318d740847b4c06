-- ===== src/Compact/Truncation.antt =====
-- crates/workflow_engine/src/compact.rs: what a truncation keeps.
use tianshu_rs.Base.{
  ℕ, zero, suc, ◌+◌, ◌-◌, ◌≤◌, ◌<◌, List, [], ◌∷◌, ◌≡◌, ◌⊎◌, inl, inr, refl, arith, ltb, leb, min,
  length, drop, get_elem?, Bool-cases, ◌^◌,
}
use tianshu_rs.Llm.{LlmMessage}
use tianshu_rs.Token.{TokenCounter, char_token_counter, count_messages, count_text}
use tianshu_rs.Compact.{content_of, keep_from, suffix_start, truncate}

-- Counting the messages, or the last of them, sums the counts of their texts; no sum wraps.
abbrev pub IsSummed : TokenCounter → List LlmMessage → Type 0
IsSummed counter [] = counter.count_messages [] ≡ 0
IsSummed counter (m ∷ ms) =
    (counter.count_messages (m ∷ ms) ≡ counter.count_text m.content + counter.count_messages ms)
    × IsSummed counter ms

module _ (counter : TokenCounter) where
  abbrev pub tokens : List LlmMessage → ℕ
  tokens = counter.count_messages

  drop-IsSummed :
      (i : ℕ) (ms : List LlmMessage)
      → i < length ms
      → IsSummed counter ms
      → tokens (drop i ms)
        ≡ counter.count_text (content_of (get_elem? ms i)) + tokens (drop (suc i) ms)
  drop-IsSummed i [] h s = absurd (omega arith)
  drop-IsSummed zero (m ∷ ms) h s = s.0
  drop-IsSummed (suc i) (m ∷ ms) h s = drop-IsSummed i ms (omega arith) s.1

  -- the first message that is kept, where `total` tokens may be kept in all
  abbrev pub IsLongest : List LlmMessage → (total : ℕ) → ℕ → Type 0
  IsLongest ms total n =
      (tokens (drop n ms) ≤ total) × ((n ≡ 0) ⊎ (total < tokens (drop (n - 1) ms)))

  keep_from-IsLongest :
      (ms : List LlmMessage) (i budget : ℕ)
      → i ≤ length ms
      → IsSummed counter ms
      → (keep_from counter ms i budget ≤ i)
        × IsLongest ms (budget + tokens (drop i ms)) (keep_from counter ms i budget)
  unfolding keep_from
  keep_from-IsLongest ms zero budget h s = (omega arith, (omega arith, inl refl))
  keep_from-IsLongest ms (suc i) budget h s =
      let t = counter.count_text (content_of (get_elem? ms i)) in
      let part = drop-IsSummed i ms (omega arith) s in
      let ih = keep_from-IsLongest ms i (budget - t) (omega arith) s in
      let back : suc i - 1 ≡ i = omega arith in
      elim (Bool-cases (ltb budget t)) [
        | inl over ↦
            let small : budget < t = ground (arith, over) in
            rw over (omega arith, (omega arith, inr (rw back (omega (arith, part, small)))))
        | inr fits ↦
            let large : t ≤ budget = ground (arith, fits) in
            let total : (budget - t) + tokens (drop i ms) ≡ budget + tokens (drop (suc i) ms) =
              omega (arith, part, large) in
            rw fits (omega (arith, ih.0), (rw total at ih.1))
      ]

  -- A truncation keeps the end of the conversation, at least the `preserve_recent` newest messages of
  -- it, or all if there are fewer. Where these fill the target it keeps no other. Otherwise it keeps
  -- as many as fit: what it keeps is within the target, and with the message before it, if there is
  -- one, it would not be. The counts are sums that do not wrap.
  pub truncate-IsLongest :
      (preserve_recent target_tokens : ℕ) (ms : List LlmMessage)
      → IsSummed counter ms
      → (n : ℕ) × (truncate preserve_recent ms target_tokens counter ≡ drop n ms)
        × (n + min preserve_recent (length ms) ≤ length ms)
        × ((target_tokens ≤ tokens (drop (suffix_start preserve_recent ms) ms))
              × (n ≡ suffix_start preserve_recent ms)
            ⊎ IsLongest ms target_tokens n)
  unfolding truncate
  truncate-IsLongest p target ms s =
      let start = suffix_start p ms in
      let kept = tokens (drop start ms) in
      elim (Bool-cases (leb target kept)) [
        | inl full ↦
            let h : target ≤ kept = ground (arith, full) in
            (start, rw full refl, omega arith, inl (h, refl))
        | inr room ↦
            let h : kept < target = ground (arith, room) in
            let longest = keep_from-IsLongest ms start (target - kept) (omega arith) s in
            let total : (target - kept) + kept ≡ target = omega (arith, h) in
            (
              keep_from counter ms start (target - kept),
              rw room refl,
              omega (arith, longest.0),
              inr (rw total at longest.1),
            )
      ]

abbrev pub text_tokens : List LlmMessage → ℕ
text_tokens [] = 0
text_tokens (m ∷ ms) = count_text m.content + text_tokens ms

count_messages-text_tokens :
    (ms : List LlmMessage) → text_tokens ms < 2 ^ 32 → count_messages ms ≡ text_tokens ms
unfolding count_messages
count_messages-text_tokens [] h = refl
count_messages-text_tokens (m ∷ ms) h = omega (arith, count_messages-text_tokens ms (omega arith))

-- The counter by characters sums without wrapping as long as the total is below `2 ^ 32`.
pub char_token_counter-IsSummed :
    (ms : List LlmMessage) → text_tokens ms < 2 ^ 32 → IsSummed char_token_counter ms
unfolding count_messages
char_token_counter-IsSummed [] h = refl
char_token_counter-IsSummed (m ∷ ms) h = (
  omega (arith, count_messages-text_tokens ms (omega arith)),
  char_token_counter-IsSummed ms (omega arith),
)
