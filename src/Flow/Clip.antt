-- ===== src/Flow/Clip.antt =====
-- The intervals of a history are disjoint and in order, and clipping them restricts them to a window.
use Prim.Native.String.{String}
use cadena.Flow.{
  count_if, contradicts, StateChange, StateInterval, Builder, includes, sort_events, close,
  on_event, on_events, build_intervals, clip_one, clip_intervals,
}
use cadena.Flow.Timeline.{find_at}
use cadena.Prelude.{
  ℕ, suc, ◌≤◌, ◌<◌, ◌≡◌, max, Bool, true, false, Option, none, some, List, [], ◌∷◌, ◌++◌, ◌&&◌, ltb,
  leb, if◌then◌else◌, or_else, arith, Option-cases, inl, inr, lt→ltb, not_lt→ltb,
}
use native.Mathlib.Decide.{dec_lt}

-- The intervals lie between `lo` and `hi`, one after another; none is empty or in a terminal state.
abbrev pub IsTimeline : List String → (lo hi : ℕ) → List StateInterval → Type 0
IsTimeline terminal lo hi [] = lo ≤ hi
IsTimeline terminal lo hi (i ∷ is) =
    (lo ≤ i.start)
    × (i.start < i.end)
    × (includes terminal i.state ≡ false)
    × IsTimeline terminal i.end hi is

module _ (terminal : List String) where
  IsTimeline-up :
      (lo hi hi' : ℕ) (is : List StateInterval)
      → hi ≤ hi'
      → IsTimeline terminal lo hi is
      → IsTimeline terminal lo hi' is
  IsTimeline-up lo hi hi' [] h k = omega arith
  IsTimeline-up lo hi hi' (i ∷ is) h (a, b, c, d) = (a, b, c, IsTimeline-up i.end hi hi' is h d)

  IsTimeline-append :
      (lo hi : ℕ) (is : List StateInterval) (i : StateInterval)
      → IsTimeline terminal lo hi is
      → hi ≤ i.start
      → i.start < i.end
      → includes terminal i.state ≡ false
      → IsTimeline terminal lo i.end (is ++ i ∷ [])
  IsTimeline-append lo hi [] i h a b c = (omega arith, b, c, omega arith)
  IsTimeline-append lo hi (x ∷ is) i (p, q, r, s) a b c =
      (p, q, r, IsTimeline-append x.end hi is i s a b c)

  close-IsTimeline :
      (lo end : ℕ) (is_open : Bool) (b : Builder)
      → IsTimeline terminal lo b.cursor b.intervals
      → IsTimeline terminal lo (max b.cursor end) (close terminal end is_open b).intervals
  close-IsTimeline lo end is_open b h =
      let i : StateInterval = record {
        state = b.state;
        start = b.cursor;
        end = end;
        is_open = is_open;
        reason = b.entry_reason;
      } in
      let kept = IsTimeline-up lo b.cursor (max b.cursor end) b.intervals (omega arith) h in
      ground (
        arith,
        kept,
        IsTimeline-append lo b.cursor b.intervals i h (omega arith),
        IsTimeline-up lo end (max b.cursor end) (b.intervals ++ i ∷ []) (omega arith),
      )

  on_event-IsTimeline :
      (lo : ℕ) (e : StateChange) (b : Builder)
      → IsTimeline terminal lo b.cursor b.intervals
      → IsTimeline terminal lo (on_event terminal e b).cursor (on_event terminal e b).intervals
  unfolding on_event
  on_event-IsTimeline lo e b h = elim (dec_lt e.at b.cursor) [
    | yes early ↦ rw (lt→ltb _ _ early) h
    | no late ↦
        let b' : Builder = record b {
          anomalies = count_if (contradicts e.from b.state) b.anomalies;
        } in
        let end : max b.cursor e.at ≡ e.at = omega arith in
        rw (not_lt→ltb _ _ late) (rw end at (close-IsTimeline lo e.at false b' h))
  ]

  on_events-IsTimeline :
      (lo : ℕ) (es : List StateChange) (b : Builder)
      → IsTimeline terminal lo b.cursor b.intervals
      → IsTimeline terminal lo (on_events terminal es b).cursor (on_events terminal es b).intervals
  unfolding on_events
  on_events-IsTimeline lo [] b h = h
  on_events-IsTimeline lo (e ∷ es) b h =
      on_events-IsTimeline lo es (on_event terminal e b) (on_event-IsTimeline lo e b h)

-- The intervals of a history are disjoint and in order: each begins at or after the end of the one
-- before, the first not before the creation, and none is empty or in a terminal state.
pub build_intervals-IsTimeline :
    (created_at : ℕ) (current : String) (input : List StateChange) (now : ℕ)
    (terminal : List String)
    → (hi : ℕ) × IsTimeline terminal created_at hi
        (build_intervals created_at current input now terminal).intervals
unfolding build_intervals
build_intervals-IsTimeline created_at current input now terminal = (
  _,
  close-IsTimeline terminal created_at now true _
      (on_events-IsTimeline terminal created_at (sort_events input) _ (omega arith)),
)

-- `[from, to)`, either bound of which may be missing.
abbrev pub in_window : Option ℕ → Option ℕ → ℕ → Bool
in_window from to t = leb (or_else from 0) t && ltb t (or_else to (suc t))

clip_one-none :
    (from to : Option ℕ) (i : StateInterval) (t : ℕ)
    → clip_one from to i ≡ none
    → (leb i.start t && (ltb t i.end && in_window from to t)) ≡ false
clip_one-none none none i t h = ground arith
clip_one-none none (some b) i t h = ground arith
clip_one-none (some a) none i t h = ground arith
clip_one-none (some a) (some b) i t h = ground arith

clip_one-some :
    (from to : Option ℕ) (i c : StateInterval) (t : ℕ)
    → clip_one from to i ≡ some c
    → (c.state ≡ i.state)
      × ((leb c.start t && ltb t c.end) ≡ (leb i.start t && (ltb t i.end && in_window from to t)))
clip_one-some none none i c t h = ground arith
clip_one-some none (some b) i c t h = ground arith
clip_one-some (some a) none i c t h = ground arith
clip_one-some (some a) (some b) i c t h = ground arith

-- Clipping loses and adds nothing: at an instant of the window the clipped intervals say what the
-- intervals say, and outside of it they say nothing.
pub clip_intervals-find_at :
    (from to : Option ℕ) (t : ℕ) (is : List StateInterval)
    → find_at t (clip_intervals is from to) ≡ (if in_window from to t then find_at t is else none)
unfolding clip_intervals
clip_intervals-find_at from to t [] = ground arith
clip_intervals-find_at from to t (i ∷ is) = elim (Option-cases (clip_one from to i)) [
  | inl gone ↦
      rw (gone, clip_intervals)
        (ground (arith, clip_one-none from to i t gone, clip_intervals-find_at from to t is))
  | inr (c, kept) ↦
      rw (kept, clip_intervals)
        (ground (arith, clip_one-some from to i c t kept, clip_intervals-find_at from to t is))
]
