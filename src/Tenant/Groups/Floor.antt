-- ===== src/Tenant/Groups/Floor.antt =====
-- Which options of a row stay worth trying beside the bookings of its group.
use tee_time_booker.Prelude.{
  All, All→Member, Bool, Bool-cases, List, Member, Member-select, Member→All, Option, [], ap, arith,
  inl, inr, is_none, ltb, ltb→lt, lt→ltb, none, not, refl, same_option, select, select-Member, some,
  subst, sym, true, ℕ, ◌&&◌, ◌<◌, ◌==◌, ◌||◌, ◌↔◌, ◌∷◌, ◌≡◌, ◌≢◌,
}
use tee_time_booker.Tenant.Groups.Ranks.{
  best_of, best_rival, effective_rank, group_floor, is_rival, options_below,
}
use tee_time_booker.Tenant.Groups.Standing.{
  HasRank, effective_rank-HasRank, effective_rank_unique, is_booked-status,
}
use tee_time_booker.Tenant.Rows.{RankedWindow, RequestRow, booked, is_status}

abbrev Below : ℕ → Option ℕ → Type 0
Below n none = Unit
Below n (some best) = n < best

best_of-Below :
    (n rank : ℕ) (best : Option ℕ)
    → Below n (some (best_of best rank)) ↔ (Below n best × (n < rank))
best_of-Below n rank none = ((λ h. (tt, h)), (λ h. h.1))
best_of-Below n rank (some b) = ground arith

best_rival-Below :
    (row : RequestRow) (n : ℕ) (rows : List RequestRow) (best : Option ℕ)
    → Below n (best_rival row best rows)
      ↔ (Below n best × All (λ other. n < effective_rank other) (select (is_rival row) rows))
unfolding best_rival
best_rival-Below row n [] best = ((λ h. (h, tt)), (λ h. h.0))
best_rival-Below row n (other ∷ rows) best = elim (Bool-cases (is_rival row other)) [
  | inr e ↦ rw e (best_rival-Below row n rows best)
  | inl e ↦ rw e (
      let rest = best_rival-Below row n rows (some (best_of best (effective_rank other))) in
      let here = best_of-Below n (effective_rank other) best in
      (
        (λ h. let (a, b) = rest.0 h in let (p, q) = here.0 a in (p, (q, b))),
        (λ (p, (q, b)). rest.1 (here.1 (p, q), b)),
      ))
]

options_below_iff :
    (best : Option ℕ) (o : RankedWindow) (options : List RankedWindow)
    → Member o (options_below best options) ↔ (Member o options × Below o.rank best)
options_below_iff none o options = ((λ m. (m, tt)), (λ h. h.0))
options_below_iff (some best) o options = (
  (λ m. let (n, t) = Member-select (λ x. ltb x.rank best) o options m in (n, ltb→lt o.rank best t)),
  (λ (m, h). select-Member (λ x. ltb x.rank best) o options m (lt→ltb o.rank best h)),
)

-- A booked row of the same group and date at another account.
pub record IsRival (row other : RequestRow) : Type 0 where
  pub other_row : other.id ≢ row.id
  pub other_account : other.course_account_id ≢ row.course_account_id
  pub group : ℕ
  pub in_group : row.group_id ≡ some group
  pub also_in_group : other.group_id ≡ some group
  pub same_date : row.target_date ≡ other.target_date
  pub is_held : other.status ≡ booked

-- The test of is_rival, on the fields of the two rows.
abbrev rival_test : Option ℕ → Option ℕ → (i j a b d e : ℕ) → Bool → Bool
rival_test g h i j a b d e stands =
    not (i == j || a == b) && ((not (is_none g) && (same_option g h && d == e)) && stands)

rival_test-parts :
    (g h : Option ℕ) (i j a b d e : ℕ) (stands : Bool)
    → rival_test g h i j a b d e stands ≡ true
    → (i ≢ j)
      × (a ≢ b)
      × ((group : ℕ) × (g ≡ some group) × (h ≡ some group))
      × (d ≡ e)
      × (stands ≡ true)
rival_test-parts none h i j a b d e stands t = absurd (ground (arith, t))
rival_test-parts (some g) none i j a b d e stands t = absurd (ground (arith, t))
rival_test-parts (some g) (some h) i j a b d e stands t = (
  ground (arith, t),
  ground (arith, t),
  (g, refl, ap some (same g h (ground (arith, t)))),
  ground (arith, t),
  ground (arith, t),
)
  where
    same : (x y : ℕ) → x ≡ y → y ≡ x
    same x y p = sym p

rival_test-true :
    (g : ℕ) (i j a b d e : ℕ)
    → i ≢ j
    → a ≢ b
    → d ≡ e
    → rival_test (some g) (some g) i j a b d e true ≡ true
rival_test-true g i j a b d e p q r = ground (arith, p, q, r)

is_rival-IsRival : (row other : RequestRow) → is_rival row other ≡ true → IsRival row other
is_rival-IsRival row other h =
    let (p, q, (g, x, y), d, e) =
      rival_test-parts row.group_id other.group_id other.id row.id other.course_account_id
        row.course_account_id row.target_date other.target_date (is_status other.status booked) h in
    record {
      other_row = p;
      other_account = q;
      group = g;
      in_group = x;
      also_in_group = y;
      same_date = d;
      is_held = is_booked-status other e;
    }

IsRival-is_rival : (row other : RequestRow) → IsRival row other → is_rival row other ≡ true
IsRival-is_rival row other r =
    rw (r.in_group, r.also_in_group, r.is_held)
      (rival_test-true r.group other.id row.id other.course_account_id row.course_account_id
        row.target_date other.target_date r.other_row r.other_account r.same_date)

-- An option of a row is still tried exactly when its rank is lower than that of every booked row
-- of its group and date at another account, which is the rank of the first of that row's options
-- whose window has its tee time, or 1,000,000 without one.
pub group_floor_exact :
    (row : RequestRow) (rows : List RequestRow) (o : RankedWindow)
    → Member o (group_floor row rows) ↔ (
        Member o row.options
        × ((other : RequestRow) (n : ℕ)
            → Member other rows
            → IsRival row other
            → HasRank other n
            → o.rank < n))
unfolding group_floor
group_floor_exact row rows o =
    let below = best_rival-Below row o.rank rows none in
    let kept = options_below_iff (best_rival row none rows) o row.options in
    (
      (λ m.
          let (n, b) = kept.0 m in
          (
            n,
            (λ other rank listed rival h.
                subst (λ k. o.rank < k) (sym (effective_rank_unique other h))
                  (All→Member _ other (select (is_rival row) rows) (below.0 b).1 (
                    select-Member (is_rival row) other rows listed
                      (IsRival-is_rival row other rival)))),
          )),
      (λ (m, h). kept.1 (
        m,
        below.1 (
          tt,
          Member→All _ (select (is_rival row) rows) (λ other n.
              let (listed, t) = Member-select (is_rival row) other rows n in
              let rival = is_rival-IsRival row other t in
              h other (effective_rank other) listed rival
                (effective_rank-HasRank other rival.is_held)),
        ),
      )),
    )
