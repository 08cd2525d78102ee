-- ===== src/Core/Slots/Ranking.antt =====
-- The ranking holds exactly the matching slots, window by window, the closest first.
use tee_time_booker.Prelude.{
  if◌then◌else◌, ◌==◌, ap, ℕ, ◌≤◌, ◌≡◌, ◌↔◌, ◌⊎◌, refl, sym, subst, ◌∙◌, inl, inr, Bool, true, not,
  ◌&&◌, Option, none, some, List, [], ◌∷◌, length, Member, ltb, Bool-cases, Option-cases, arith,
}
use tee_time_booker.Core.Models.{TimeWindow, TeeTimeSlot, BookingRequest}
use tee_time_booker.Core.Slots.{
  matching_window, Candidate, within_cap, is_wanted, candidate_of, candidates, add_candidate,
}
use tee_time_booker.Core.Slots.Windows.{FirstWindow, window_from-Found, window_found}

abbrev pub IsWithinCap : Option ℕ → ℕ → Type 0
IsWithinCap none price = Unit
IsWithinCap (some cap) price = price ≤ cap

-- What the request asks of a slot.
pub record Matches (request : BookingRequest) (s : TeeTimeSlot) : Type 0 where
  pub seats : length request.players ≤ s.available_spots
  pub same_holes : (request.holes ≡ s.holes) ⊎ (request.holes ≡ 0)
  pub affordable : IsWithinCap request.max_price_per_player s.price_per_player
  pub window : TimeWindow
  pub asked : Member window request.time_windows
  pub after_start : window.earliest ≤ s.tee_time.time
  pub before_end : s.tee_time.time ≤ window.latest

within_cap_iff :
    (cap : Option ℕ) (price : ℕ) → (within_cap cap price ≡ true) ↔ IsWithinCap cap price
within_cap_iff none price = ((λ _. tt), (λ _. refl))
within_cap_iff (some cap) price = ((λ h. ground (arith, h)), (λ h. ground (arith, h)))

and_three : (a b c : Bool) → (a && (b && c)) ≡ true → (a ≡ true) × (b ≡ true) × (c ≡ true)
and_three a b c h = ground arith

added_cases :
    (o : Option Candidate) (later : List Candidate) (c : Candidate)
    → Member c (add_candidate o later)
    → (o ≡ some c) ⊎ Member c later
added_cases none later c m = inr m
added_cases (some d) later c (inl p) = inl (ap some (sym p))
added_cases (some d) later c (inr m) = inr m

added_first :
    (o : Option Candidate) (later : List Candidate) (c : Candidate)
    → o ≡ some c
    → Member c (add_candidate o later)
added_first none later c p = absurd (cc p)
added_first (some d) later c p = inl (ground (arith, p))

added_later :
    (o : Option Candidate) (later : List Candidate) (c : Candidate)
    → Member c later
    → Member c (add_candidate o later)
added_later none later c m = m
added_later (some d) later c m = inr m

module _ (request : BookingRequest) where
  is_wanted_iff :
      (s : TeeTimeSlot)
      → (is_wanted request s ≡ true) ↔ (
          (length request.players ≤ s.available_spots)
          × ((request.holes ≡ s.holes) ⊎ (request.holes ≡ 0))
          × IsWithinCap request.max_price_per_player s.price_per_player)
  is_wanted_iff s =
      let cap = within_cap_iff request.max_price_per_player s.price_per_player in
      (
        (λ h.
            let (a, b, c) =
              and_three (not (ltb s.available_spots (length request.players)))
                (if request.holes == s.holes then true else request.holes == 0)
                (within_cap request.max_price_per_player s.price_per_player) h in
            (ground (arith, a), ground (arith, b), cap.0 c)),
        (λ (a, b, c). holds a b (cap.1 c)),
      )
    where
      holds :
          length request.players ≤ s.available_spots
          → (request.holes ≡ s.holes) ⊎ (request.holes ≡ 0)
          → within_cap request.max_price_per_player s.price_per_player ≡ true
          → is_wanted request s ≡ true
      holds a b c = rw c (ground (arith, a, b))

  candidate_parts :
      (s : TeeTimeSlot) {c : Candidate}
      → candidate_of request s ≡ some c
      → (c.slot ≡ s)
        × (matching_window s request ≡ some (c.index, c.window))
        × (is_wanted request s ≡ true)
  unfolding candidate_of
  candidate_parts s h = elim (Bool-cases (is_wanted request s)) [
    | inr e ↦ absurd (cc (rw e at h))
    | inl e ↦ elim (Option-cases (matching_window s request)) [
      | inl f ↦ absurd (cc (rw (e, f) at h))
      | inr ((i, w), f) ↦ let p = rw (e, f) at h in (ground (arith, p), f ∙ ground (arith, p), e)
    ]
  ]

  candidate_found :
      (s : TeeTimeSlot)
      → Matches request s
      → (c : Candidate) × (candidate_of request s ≡ some c) × (c.slot ≡ s)
  unfolding candidate_of
  candidate_found s m =
      let (j, v, e) =
        window_found s.tee_time.time 0 request.time_windows m.window m.asked m.after_start
          m.before_end in
      (
        record { slot = s; index = j; window = v },
        rw ((is_wanted_iff s).1 (m.seats, m.same_holes, m.affordable), e) refl,
        refl,
      )

  -- A candidate stands for a listed slot that matches, with the first window that it lies in.
  abbrev pub StandsFor : List TeeTimeSlot → Candidate → Type 0
  StandsFor slots c =
      Member c.slot slots
      × Matches request c.slot
      × FirstWindow c.slot.tee_time.time 0 request.time_windows c.index c.window

  matched :
      (s : TeeTimeSlot) (c : Candidate)
      → c.slot ≡ s
      → matching_window s request ≡ some (c.index, c.window)
      → is_wanted request s ≡ true
      → Matches request c.slot
        × FirstWindow c.slot.tee_time.time 0 request.time_windows c.index c.window
  matched s c q f g =
      let (a, b, k) = (is_wanted_iff s).0 g in
      let found = window_from-Found s.tee_time.time 0 request.time_windows f in
      subst
        (λ t.
          Matches request t × FirstWindow t.tee_time.time 0 request.time_windows c.index c.window)
        (sym q)
        (
          record {
            seats = a;
            same_holes = b;
            affordable = k;
            window = c.window;
            asked = found.member;
            after_start = found.since;
            before_end = found.until;
          },
          found.first,
        )

  pub candidates_sound :
      (slots : List TeeTimeSlot) (c : Candidate)
      → Member c (candidates request slots)
      → StandsFor slots c
  candidates_sound [] c m = absurd m
  candidates_sound (s ∷ rest) c m =
      elim (added_cases (candidate_of request s) (candidates request rest) c m) [
        | inl e ↦
            let (q, f, g) = candidate_parts s e in
            let (w, first) = matched s c q f g in (inl q, w, first)
        | inr n ↦ let (k, w, f) = candidates_sound rest c n in (inr k, w, f)
      ]

  pub candidates_complete :
      (slots : List TeeTimeSlot) (s : TeeTimeSlot)
      → Member s slots
      → Matches request s
      → (c : Candidate) × Member c (candidates request slots) × (c.slot ≡ s)
  candidates_complete [] s m w = absurd m
  candidates_complete (t ∷ rest) s (inl p) w =
      let (c, e, q) = candidate_found s w in
      (
        c,
        added_first (candidate_of request t) (candidates request rest) c
            (subst (λ u. candidate_of request u ≡ some c) p e),
        q,
      )
  candidates_complete (t ∷ rest) s (inr m) w =
      let (c, n, q) = candidates_complete rest s m w in
      (c, added_later (candidate_of request t) (candidates request rest) c n, q)
