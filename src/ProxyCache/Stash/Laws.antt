-- ===== src/ProxyCache/Stash/Laws.antt =====
-- What stashingWriter has kept after the writes of a response.
use Prim.Native.String.{count}
use native.Mathlib.Decide.{dec_lt}
use text.Mathlib.TextLemmas.{length-append, append_assoc, append-nil, nil-append}
use thrust_oauth2id_server.Prelude.{
  ℕ, ◌+◌, ◌≤◌, ◌<◌, ◌≡◌, refl, ◌∙◌, String, true, false, List, [], ◌∷◌, arith, ltb, if◌then◌else◌,
}
use thrust_oauth2id_server.Prelude.Text.{◌<>◌}
use thrust_oauth2id_server.ProxyCache.Stash.{Stash, new_stash, keep, body}

-- The writes of a whole response one after another, and their text.
abbrev pub keep_all : List String → Stash → Stash
keep_all [] s = s
keep_all (p ∷ ps) s = keep_all ps (keep p s)

abbrev pub join : List String → String
join [] = ""
join (p ∷ ps) = p <> join ps

keep-overflowed :
    (ps : List String) (s : Stash) → s.overflowed ≡ true → (keep_all ps s).overflowed ≡ true
unfolding keep
keep-overflowed [] s h = h
keep-overflowed (p ∷ ps) s h = keep-overflowed ps (keep p s) (ground arith)

keep-limit : (ps : List String) (s : Stash) → (keep_all ps s).limit ≡ s.limit
unfolding keep
keep-limit [] s = refl
keep-limit (p ∷ ps) s = keep-limit ps (keep p s) ∙ ground arith

keep_fits :
    (p : String) (s : Stash)
    → count s.buffer + count p ≤ s.limit
    → keep p s ≡ record s { buffer = s.buffer <> p }
unfolding keep
keep_fits p s h = ground arith

keep_over :
    (p : String) (s : Stash)
    → s.limit < count s.buffer + count p
    → keep p s ≡ record s { overflowed = true }
unfolding keep
keep_over p s h = ground arith

keep_within :
    (ps : List String) (s : Stash)
    → count s.buffer + count (join ps) ≤ s.limit
    → keep_all ps s ≡ record s { buffer = s.buffer <> join ps }
keep_within [] s h = rw append-nil
keep_within (p ∷ ps) s h = rw (keep_fits p s (omega (arith, length-append p (join ps)))) (
    rw (← append_assoc) (
      keep_within ps (record s { buffer = s.buffer <> p })
        (omega (arith, length-append p (join ps), length-append s.buffer p))))

keep_beyond :
    (ps : List String) (s : Stash)
    → count s.buffer ≤ s.limit
    → s.limit < count s.buffer + count (join ps)
    → (keep_all ps s).overflowed ≡ true
keep_beyond [] s k h = absurd (omega (arith))
keep_beyond (p ∷ ps) s k h = elim (dec_lt s.limit (count s.buffer + count p)) [
  | yes over ↦
      rw (keep_over p s over, keep_all) (keep-overflowed ps (record s { overflowed = true }) refl)
  | no fits ↦
      rw (keep_fits p s (omega arith), keep_all)
        (keep_beyond ps (record s { buffer = s.buffer <> p })
          (omega (arith, length-append s.buffer p))
          (omega (arith, length-append p (join ps), length-append s.buffer p)))
]

-- After the writes of a response the stash holds their text, byte for byte, if it is within the
-- limit; if it is longer, the stash is marked as overflowed and its body is empty.
pub stash_exact :
    (limit : ℕ) (ps : List String)
    → ((keep_all ps (new_stash limit)).overflowed ≡ ltb limit (count (join ps)))
      × (body (keep_all ps (new_stash limit))
          ≡ (if ltb limit (count (join ps)) then "" else join ps))
unfolding new_stash body
stash_exact limit ps = elim (dec_lt limit (count (join ps))) [
  | yes over ↦
      let e =
        keep_beyond ps (record { limit = limit; buffer = ""; overflowed = false }) (omega arith)
          (omega arith) in
      ground (arith, e)
  | no fits ↦
      let e =
        keep_within ps (record { limit = limit; buffer = ""; overflowed = false }) (omega arith) in
      ground (arith, e, nil-append (join ps))
]

-- The stash never holds more than its limit, whatever is written.
pub keep_all_bounded :
    (ps : List String) (s : Stash)
    → count s.buffer ≤ s.limit
    → count (keep_all ps s).buffer ≤ s.limit
unfolding keep
keep_all_bounded [] s k = k
keep_all_bounded (p ∷ ps) s k =
    ground (arith, keep_all_bounded ps (keep p s), length-append s.buffer p)
