-- ===== src/Core/Slots/Ranked.antt =====
-- What rank_slots_for_request returns, and in which order.
use tee_time_booker.Core.Slots.Windows.{FirstWindow, stands_first, stands_later}
use tee_time_booker.Prelude.{
  ℕ, ◌≤◌, ◌<◌, ◌≡◌, ◌↔◌, ◌⊎◌, refl, sym, subst, ap, ◌∙◌, inl, inr, Bool, true, false, List, [], ◌∷◌,
  map, Member, All, IsSortedBy, sort_by, sort_by-Member, sort_by-IsSortedBy, leb, arith, ◌+◌, ◌-◌,
  ◌*◌, ◌%◌,
}
use tee_time_booker.Core.Calendar.{wall_us, minute_us}
use tee_time_booker.Core.Models.{TeeTimeSlot, BookingRequest, TimeWindow}
use tee_time_booker.Core.Slots.{
  Candidate, candidates, lex, goes_before, midpoint_distance, rank_slots_for_request, seconds_of,
}
use tee_time_booker.Core.Slots.Ranking.{Matches, StandsFor, candidates_sound, candidates_complete}

Member-map :
    (cs : List Candidate) (s : TeeTimeSlot)
    → Member s (map (λ c. c.slot) cs) ↔ ((c : Candidate) × Member c cs × (c.slot ≡ s))
Member-map [] s = ((λ m. absurd m), (λ (c, m, p). absurd m))
Member-map (d ∷ cs) s = (
  (λ m. elim m [
    | inl p ↦ (d, inl refl, sym p)
    | inr n ↦ let (c, k, p) = (Member-map cs s).0 n in (c, inr k, p)
  ]),
  (λ (c, m, p). elim m [
    | inl q ↦ inl (sym p ∙ ap (λ e. e.slot) q)
    | inr n ↦ inr ((Member-map cs s).1 (c, n, p))
  ]),
)

-- A ranked slot is one of the listed slots, seats the party, has the holes that the request asks
-- for (any, where it asks for 0), costs at most the cap, and lies in one of the windows; and every
-- listed slot of that kind is ranked.
pub ranked_exact :
    (slots : List TeeTimeSlot) (request : BookingRequest) (s : TeeTimeSlot)
    → Member s (rank_slots_for_request slots request) ↔ (Member s slots × Matches request s)
unfolding rank_slots_for_request
ranked_exact slots request s = (
  (λ m.
      let (c, n, p) = (Member-map sorted s).0 m in
      let (k, w, f) =
        candidates_sound request slots c
          ((sort_by-Member goes_before c (candidates request slots)).0 n) in
      (subst (λ t. Member t slots) p k, subst (Matches request) p w)),
  (λ (m, w).
      let (c, n, p) = candidates_complete request slots s m w in
      (Member-map sorted s).1
        (c, (sort_by-Member goes_before c (candidates request slots)).1 n, p)),
)
  where
    sorted : List Candidate
    sorted = sort_by goes_before (candidates request slots)

lex_total : (a b : ℕ) (p q : Bool) → (p ≡ false → q ≡ true) → lex a b p ≡ false → lex b a q ≡ true
lex_total a b p q h e = ground arith

lex_transitive :
    (a b c : ℕ) (p q r : Bool)
    → (p ≡ true → q ≡ true → r ≡ true)
    → lex a b p ≡ true
    → lex b c q ≡ true
    → lex a c r ≡ true
lex_transitive a b c p q r h e f = ground arith

-- Twice the time between a slot and the midpoint of its window, in microseconds.
abbrev pub midpoint_gap : Candidate → ℕ
midpoint_gap c =
    let t = 2 * c.slot.tee_time.time in
    let ends = c.window.earliest + c.window.latest in (t - ends) + (ends - t)

-- The order of the ranking: the earlier window, then the closer to its midpoint, then the earlier.
abbrev pub IsBefore : Candidate → Candidate → Type 0
IsBefore a b =
    (a.index < b.index)
    ⊎ ((a.index ≡ b.index)
        × ((midpoint_gap a < midpoint_gap b)
            ⊎ ((midpoint_gap a ≡ midpoint_gap b)
                × (wall_us a.slot.tee_time.wall ≤ wall_us b.slot.tee_time.wall))))

-- A time of whole minutes, which the code's floats of minutes hold exactly.
abbrev pub IsWholeMinute : ℕ → Type 0
IsWholeMinute t = t % minute_us ≡ 0

seconds-exact : (t : ℕ) → IsWholeMinute t → seconds_of t * 1_000_000 ≡ t
seconds-exact t h = omega (arith, h)

midpoint-exact :
    (c : Candidate)
    → IsWholeMinute c.slot.tee_time.time
    → IsWholeMinute c.window.earliest
    → IsWholeMinute c.window.latest
    → midpoint_gap c ≡ midpoint_distance c.slot c.window * 1_000_000
unfolding midpoint_distance
midpoint-exact c h k l =
    scaled c.slot.tee_time.time c.window.earliest c.window.latest (seconds_of c.slot.tee_time.time)
      (seconds_of c.window.earliest) (seconds_of c.window.latest) (seconds-exact _ h)
      (seconds-exact _ k) (seconds-exact _ l)
  where
    scaled :
        (t e l a b c : ℕ)
        → a * 1_000_000 ≡ t
        → b * 1_000_000 ≡ e
        → c * 1_000_000 ≡ l
        → (2 * t - (e + l)) + ((e + l) - 2 * t)
          ≡ ((2 * a - (b + c)) + ((b + c) - 2 * a)) * 1_000_000
    scaled t e l a b c p q r = omega (arith, p, q, r)

lex_IsBefore :
    (a b c d x y : ℕ)
    → lex a b (lex c d (leb x y)) ≡ true
    → (a < b) ⊎ ((a ≡ b) × ((c < d) ⊎ ((c ≡ d) × (x ≤ y))))
lex_IsBefore a b c d x y h = ground arith

goes_before_total : (a b : Candidate) → goes_before a b ≡ false → goes_before b a ≡ true
unfolding goes_before
goes_before_total a b h =
    lex_total a.index b.index
      (lex (midpoint_distance a.slot a.window) (midpoint_distance b.slot b.window)
        (leb (wall_us a.slot.tee_time.wall) (wall_us b.slot.tee_time.wall)))
      (lex (midpoint_distance b.slot b.window) (midpoint_distance a.slot a.window)
        (leb (wall_us b.slot.tee_time.wall) (wall_us a.slot.tee_time.wall)))
      (λ e.
        lex_total (midpoint_distance a.slot a.window) (midpoint_distance b.slot b.window)
          (leb (wall_us a.slot.tee_time.wall) (wall_us b.slot.tee_time.wall))
          (leb (wall_us b.slot.tee_time.wall) (wall_us a.slot.tee_time.wall))
          (λ f. leb_total (wall_us a.slot.tee_time.wall) (wall_us b.slot.tee_time.wall) f) e)
      h
  where
    leb_total : (x y : ℕ) → leb x y ≡ false → leb y x ≡ true
    leb_total x y f = ground arith

goes_before_transitive :
    (a b c : Candidate) → goes_before a b ≡ true → goes_before b c ≡ true → goes_before a c ≡ true
unfolding goes_before
goes_before_transitive a b c =
    lex_transitive a.index b.index c.index
      (lex (midpoint_distance a.slot a.window) (midpoint_distance b.slot b.window)
        (leb (wall_us a.slot.tee_time.wall) (wall_us b.slot.tee_time.wall)))
      (lex (midpoint_distance b.slot b.window) (midpoint_distance c.slot c.window)
        (leb (wall_us b.slot.tee_time.wall) (wall_us c.slot.tee_time.wall)))
      (lex (midpoint_distance a.slot a.window) (midpoint_distance c.slot c.window)
        (leb (wall_us a.slot.tee_time.wall) (wall_us c.slot.tee_time.wall)))
      (lex_transitive (midpoint_distance a.slot a.window) (midpoint_distance b.slot b.window)
        (midpoint_distance c.slot c.window)
        (leb (wall_us a.slot.tee_time.wall) (wall_us b.slot.tee_time.wall))
        (leb (wall_us b.slot.tee_time.wall) (wall_us c.slot.tee_time.wall))
        (leb (wall_us a.slot.tee_time.wall) (wall_us c.slot.tee_time.wall))
        (leb_trans (wall_us a.slot.tee_time.wall) (wall_us b.slot.tee_time.wall)
          (wall_us c.slot.tee_time.wall)))
  where
    leb_trans : (x y z : ℕ) → leb x y ≡ true → leb y z ≡ true → leb x z ≡ true
    leb_trans x y z f g = ground arith

abbrev pub IsRanked : List Candidate → Type 0
IsRanked [] = Unit
IsRanked (c ∷ cs) = All (IsBefore c) cs × IsRanked cs

goes_before-IsBefore :
    (c d : Candidate)
    → goes_before c d ≡ true
    → midpoint_gap c ≡ midpoint_distance c.slot c.window * 1_000_000
    → midpoint_gap d ≡ midpoint_distance d.slot d.window * 1_000_000
    → IsBefore c d
unfolding goes_before
goes_before-IsBefore c d h p q =
    scaled c.index d.index (midpoint_distance c.slot c.window) (midpoint_distance d.slot d.window)
      (midpoint_gap c) (midpoint_gap d) (wall_us c.slot.tee_time.wall)
      (wall_us d.slot.tee_time.wall) p q
      (lex_IsBefore c.index d.index (midpoint_distance c.slot c.window)
        (midpoint_distance d.slot d.window) (wall_us c.slot.tee_time.wall)
        (wall_us d.slot.tee_time.wall) h)
  where
    scaled :
        (i j a b m n x y : ℕ)
        → m ≡ a * 1_000_000
        → n ≡ b * 1_000_000
        → (i < j) ⊎ ((i ≡ j) × ((a < b) ⊎ ((a ≡ b) × (x ≤ y))))
        → (i < j) ⊎ ((i ≡ j) × ((m < n) ⊎ ((m ≡ n) × (x ≤ y))))
    scaled i j a b m n x y p q (inl k) = inl k
    scaled i j a b m n x y p q (inr (e, inl k)) = inr (e, inl (omega (arith, p, q, k)))
    scaled i j a b m n x y p q (inr (e, inr (f, k))) = inr (e, inr (omega (arith, p, q, f), k))

sorted-IsRanked :
    (cs : List Candidate)
    → ((c : Candidate)
        → Member c cs
        → midpoint_gap c ≡ midpoint_distance c.slot c.window * 1_000_000)
    → IsSortedBy goes_before cs
    → IsRanked cs
sorted-IsRanked [] exact h = tt
sorted-IsRanked (c ∷ cs) exact h =
    (before cs (λ d m. exact d (inr m)) h.0, sorted-IsRanked cs (λ d m. exact d (inr m)) h.1)
  where
    before :
        (ds : List Candidate)
        → ((d : Candidate)
            → Member d ds
            → midpoint_gap d ≡ midpoint_distance d.slot d.window * 1_000_000)
        → All (λ d. goes_before c d ≡ true) ds
        → All (IsBefore c) ds
    before [] more k = tt
    before (d ∷ ds) more k = (
      goes_before-IsBefore c d k.0 (exact c (inl refl)) (more d (inl refl)),
      before ds (λ e m. more e (inr m)) k.1,
    )

FirstWindow-Member :
    {t i j : ℕ} {ws : List TimeWindow} {v : TimeWindow} → FirstWindow t i ws j v → Member v ws
FirstWindow-Member (stands_first a b) = inl refl
FirstWindow-Member (stands_later o f) = inr (FirstWindow-Member f)

-- Where the slots and the windows have times of whole minutes: the ranked slots come from
-- candidates, each a listed slot that matches, with the index of the first window that it lies in.
-- A slot stands before another as the tuple of its window's index, its distance from that window's
-- midpoint and its tee time tells: no later slot has a smaller one.
pub rank_slots_for_request-IsRanked :
    (slots : List TeeTimeSlot) (request : BookingRequest)
    → ((s : TeeTimeSlot) → Member s slots → IsWholeMinute s.tee_time.time)
    → ((w : TimeWindow)
        → Member w request.time_windows
        → IsWholeMinute w.earliest × IsWholeMinute w.latest)
    → (cs : List Candidate) × (rank_slots_for_request slots request ≡ map (λ c. c.slot) cs)
      × ((c : Candidate) → Member c cs → StandsFor request slots c)
      × IsRanked cs
unfolding rank_slots_for_request
rank_slots_for_request-IsRanked slots request whole_slots whole_windows = (
  sort_by goes_before (candidates request slots),
  refl,
  sound,
  sorted-IsRanked (sort_by goes_before (candidates request slots))
      (λ c m.
        let (listed, _, first) = sound c m in
        let (a, b) = whole_windows c.window (FirstWindow-Member first) in
        midpoint-exact c (whole_slots c.slot listed) a b)
      (sort_by-IsSortedBy goes_before goes_before_total goes_before_transitive
        (candidates request slots)),
)
  where
    sound :
        (c : Candidate)
        → Member c (sort_by goes_before (candidates request slots))
        → StandsFor request slots c
    sound c m =
        candidates_sound request slots c
          ((sort_by-Member goes_before c (candidates request slots)).0 m)
