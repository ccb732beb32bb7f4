-- ===== src/Polling/Windows.antt =====
-- What a page covers, and where the next one starts.
use unifi_mcp.Base.{
  ℕ, ◌≤◌, ◌<◌, max, String, ◌≡◌, refl, subst, ◌⊎◌, inl, inr, Option, some, List, [], ◌∷◌, arith,
  leb, leb→le, Bool-cases, Result, ok, err, bind-ok, length, All, All-map,
}
use unifi_mcp.Base.Json.{Json, int, Fields, end, field, get_field}
use unifi_mcp.Events.{NormalizedEvent}
use unifi_mcp.Polling.{
  PollBatch, to_ms, max_ms, or_empty, cursor_for, Answer, page, raises, no_answer, batch,
  normalize_all, normalized, from_answer, poll_network, Whole, pos, Query, int_of, query_from,
  protect_query, poll_protect,
}

-- Some event of the list has this time in milliseconds.
pub data Attains (m : ℕ) : List NormalizedEvent → Type 0 where
  here :
      (e : NormalizedEvent) {es : List NormalizedEvent}
      → to_ms e.occurred_at ≡ m
      → Attains m (e ∷ es)
  there : (e : NormalizedEvent) {es : List NormalizedEvent} → Attains m es → Attains m (e ∷ es)

-- `m` is the latest time, in milliseconds.
abbrev pub Latest : ℕ → List NormalizedEvent → Type 0
Latest m es = All (λ e. to_ms e.occurred_at ≤ m) es × Attains m es

-- The cursor after a page: the old one if the page is empty, else the time in milliseconds of the
-- latest event.
pub data Watermarks (previous : Option Fields) (b : PollBatch) : Type 0 where
  unmoved : b.events ≡ [] → b.cursor ≡ or_empty previous → Watermarks previous b
  moved :
      (m : ℕ)
      → b.cursor ≡ field "watermark_ms" (int m) end
      → Latest m b.events
      → Watermarks previous b

All-max_ms :
    (e : NormalizedEvent) (es : List NormalizedEvent)
    → All (λ x. to_ms x.occurred_at ≤ max_ms e es) (e ∷ es)
unfolding max_ms
All-max_ms e [] = (omega arith, tt)
All-max_ms e (x ∷ xs) =
    (omega arith, All-map _ _ (λ y h. omega (arith, h)) (x ∷ xs) (All-max_ms x xs))

Attains-max :
    (a b : ℕ) (e : NormalizedEvent) (es : List NormalizedEvent)
    → to_ms e.occurred_at ≡ a
    → Attains b es
    → Attains (max a b) (e ∷ es)
Attains-max a b e es first rest = elim (Bool-cases (leb b a)) [
  | inl le ↦ here e (omega (arith, first, leb→le b a le))
  | inr gt ↦ there e (subst (λ m. Attains m es) (ground (arith, gt)) rest)
]

Attains-max_ms : (e : NormalizedEvent) (es : List NormalizedEvent) → Attains (max_ms e es) (e ∷ es)
unfolding max_ms
Attains-max_ms e [] = here e refl
Attains-max_ms e (x ∷ xs) =
    Attains-max (to_ms e.occurred_at) (max_ms x xs) e (x ∷ xs) refl (Attains-max_ms x xs)

cursor_for-Watermarks :
    (es : List NormalizedEvent) (previous : Option Fields)
    → Watermarks previous (record { events = es; cursor = cursor_for es previous })
unfolding cursor_for
cursor_for-Watermarks [] previous = unmoved refl refl
cursor_for-Watermarks (e ∷ es) previous =
    moved (max_ms e es) refl (All-max_ms e es, Attains-max_ms e es)

length-normalize_all :
    (normalize : Fields → Result String NormalizedEvent) (raws : List Fields)
    (es : List NormalizedEvent)
    → normalize_all normalize raws ≡ ok es
    → length es ≡ length raws
unfolding normalize_all
length-normalize_all normalize [] es h = let same : [] ≡ es = cc h in rw (← same) refl
length-normalize_all normalize (raw ∷ more) es h =
    let (e, one, h1) = bind-ok (normalize raw) _ h in
    let (rest, others, h2) = bind-ok (normalize_all normalize more) _ h1 in
    let same : e ∷ rest ≡ es = cc h2 in
    rw (← same) (omega (arith, length-normalize_all normalize more rest others))

-- What is known of a page that a source passes on.
abbrev pub Complete : ℕ → Option Fields → Answer → PollBatch → Type 0
Complete limit previous answer b =
    (raws : List Fields) × (answer ≡ page raws)
    × (length raws < limit)
    × (length b.events ≡ length raws)
    × Watermarks previous b

normalized-Complete :
    (limit : ℕ) (normalize : Fields → Result String NormalizedEvent) (previous : Option Fields)
    (raws : List Fields) (b : PollBatch) (r : Result String (List NormalizedEvent))
    → length raws < limit
    → normalize_all normalize raws ≡ r
    → normalized previous r ≡ batch b
    → Complete limit previous (page raws) b
unfolding normalized
normalized-Complete limit normalize previous raws b (err name) few e h = cc
normalized-Complete limit normalize previous raws b (ok es) few e h =
    let same : record { events = es; cursor = cursor_for es previous } ≡ b = cc h in
    rw (← same)
      (raws, refl, few, length-normalize_all normalize raws es e, cursor_for-Watermarks es previous)

from_answer-Complete :
    (limit : ℕ) (normalize : Fields → Result String NormalizedEvent) (previous : Option Fields)
    (answer : Answer) (b : PollBatch)
    → from_answer limit normalize previous answer ≡ batch b
    → Complete limit previous answer b
unfolding from_answer
from_answer-Complete limit normalize previous (raises name) b h = cc
from_answer-Complete limit normalize previous no_answer b h = cc
from_answer-Complete limit normalize previous (page raws) b h =
    elim (Bool-cases (leb limit (length raws))) [
      | inl full ↦ cc (rw (full, from_answer) at h)
      | inr few ↦
          normalized-Complete limit normalize previous raws b _ (ground (arith, few)) refl
            (rw (few, from_answer) at h)
    ]

-- The Network source passes on a page only if the controller's window was not full; it has one event
-- for each raw one, and its cursor is the time of the latest, or the old one if there is none.
pub poll_network-Complete :
    (normalize : Fields → Result String NormalizedEvent) (answer : Answer) (cursor : Option Fields)
    (b : PollBatch)
    → poll_network normalize answer cursor ≡ batch b
    → Complete 3000 cursor answer b
unfolding poll_network
poll_network-Complete normalize answer cursor b h =
    from_answer-Complete 3000 normalize cursor answer b h

-- The Protect source passes on a page only if the window that it asked for was not full, and after a
-- page with events the next window starts `overlap` before the latest event of the page, whatever
-- the clock says then.
pub poll_protect-Complete :
    (int_text : Json → Result String Whole) (overlap now : ℕ)
    (normalize : Fields → Result String NormalizedEvent) (get_events : Query → Answer)
    (cursor : Option Fields) (b : PollBatch)
    → poll_protect int_text overlap now normalize get_events cursor ≡ batch b
    → (q : Query) × (protect_query int_text overlap now cursor ≡ ok q)
      × Complete 1000 cursor (get_events q) b
      × ((b.events ≡ [])
          ⊎ ((m : ℕ) × Latest m b.events
              × ((later : ℕ)
                  → protect_query int_text overlap later (some b.cursor)
                    ≡ ok (record { base = pos m; back = overlap; end_ = later }))))
unfolding poll_protect
poll_protect-Complete int_text overlap now normalize get_events cursor b h =
    by_query (protect_query int_text overlap now cursor) refl
  where
    next :
        Watermarks cursor b
        → (b.events ≡ [])
          ⊎ ((m : ℕ) × Latest m b.events
              × ((later : ℕ)
                  → protect_query int_text overlap later (some b.cursor)
                    ≡ ok (record { base = pos m; back = overlap; end_ = later })))
    next (unmoved none_there same) = inl none_there
    next (moved m at latest) =
        inr (m, latest, λ later. rw at (unfold protect_query query_from int_of get_field in refl))

    by_query :
        (r : Result String Query)
        → protect_query int_text overlap now cursor ≡ r
        → (q : Query) × (protect_query int_text overlap now cursor ≡ ok q)
          × Complete 1000 cursor (get_events q) b
          × ((b.events ≡ [])
              ⊎ ((m : ℕ) × Latest m b.events
                  × ((later : ℕ)
                      → protect_query int_text overlap later (some b.cursor)
                        ≡ ok (record { base = pos m; back = overlap; end_ = later }))))
    by_query (err name) bad = cc (rw (bad, poll_protect) at h)
    by_query (ok q) asked =
        let complete =
          from_answer-Complete 1000 normalize cursor (get_events q) b
            (rw (asked, poll_protect) at h) in
        (q, asked, complete, next complete.4)
