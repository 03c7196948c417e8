-- ===== src/Shrinker/Shutdown.antt =====
-- shrinker/shrinker.go: what a caller of Shutdown waits for.
use go_nfsd.Prelude.{
  ℕ, suc, ◌+◌, ◌-◌, ◌*◌, ◌%◌, ◌^◌, ◌≤◌, ◌<◌, ◌≡◌, ◌≢◌, refl, sym, ◌∙◌, List, [], ◌∷◌, ◌++◌, length,
  true, ltb, ap, Bool-cases, inl, inr, ltb→lt, ltb→le, lt→ltb, le→ltb, arith,
}
use go_nfsd.Shrinker.{start_shrinker}
use go_nfsd.Shrinker.Threads.{
  Threads, check_threads, shutdown, crash, wake, signal, one_less, finish, Quiet, finishes, wakes,
  Step, starts, shuts, crashes, quiet, Run, done, next,
}

-- The counter counts the threads.
abbrev pub Counted : Threads → Type 0
Counted s = s.st.nthread ≡ length s.st.pending % 2 ^ 32

length-middle : (l : List ℕ) (x : ℕ) (r : List ℕ) → length (l ++ (x ∷ r)) ≡ suc (length (l ++ r))
length-middle [] x r = refl
length-middle (y ∷ l) x r = rw (length-middle l x r) refl

length-last : (l : List ℕ) (x : ℕ) → length (l ++ (x ∷ [])) ≡ suc (length l)
length-last [] x = refl
length-last (y ∷ l) x = rw (length-last l x) refl

check-st : (s : Threads) → (check_threads s).st ≡ s.st
unfolding check_threads
check-st s = elim (Bool-cases (ltb 0 s.st.nthread)) [ inl h ↦ rw h refl | inr h ↦ rw h refl ]

signal-st : (s : Threads) → (signal s).st ≡ s.st
unfolding signal
signal-st s = elim (Bool-cases (ltb 0 s.sleeping)) [ inl h ↦ rw h refl | inr h ↦ rw h refl ]

-- A call or a wake-up of a caller keeps the shrinker but for the crash flag.
finish-Counted :
    (s : Threads) (before : List ℕ) (inum : ℕ) (after : List ℕ)
    → Counted s
    → s.st.pending ≡ before ++ (inum ∷ after)
    → Counted (finish s (before ++ after))
unfolding finish
finish-Counted s before inum after c e =
    let shorter = length-middle before inum after in
    let full : length s.st.pending ≡ suc (length (before ++ after)) = rw e shorter in
    rw (signal-st (one_less s (before ++ after))) (rw c (rw full (omega arith)))

pub Step-Counted : (s s' : Threads) → Counted s → Step s s' → Counted s'
unfolding start_shrinker shutdown crash wake
Step-Counted s s' c (starts _ inum) = rw (length-last s.st.pending inum, c) (omega arith)
Step-Counted s s' c (shuts _) = rw (check-st s) c
Step-Counted s s' c (crashes _) = rw (check-st (record s { st = record s.st { crash = true } })) c
Step-Counted s s' c (quiet _ _ (finishes _ before inum after e)) =
    finish-Counted s before inum after c e
Step-Counted s s' c (quiet _ _ (wakes _ _)) = rw (check-st (record s { woken = s.woken - 1 })) c

-- The steps that a run can still take.
abbrev left_to_do : Threads → ℕ
left_to_do s = 2 * length s.st.pending + s.woken

signal-less : (s : Threads) → left_to_do (signal s) ≤ suc (left_to_do s)
unfolding signal
signal-less s = elim (Bool-cases (ltb 0 s.sleeping)) [
  | inl h ↦ rw h (omega arith)
  | inr h ↦ rw h (omega arith)
]

check-same : (s : Threads) → left_to_do (check_threads s) ≡ left_to_do s
unfolding check_threads
check-same s = elim (Bool-cases (ltb 0 s.st.nthread)) [ inl h ↦ rw h refl | inr h ↦ rw h refl ]

Quiet-less : (s s' : Threads) → Quiet s s' → suc (left_to_do s') ≤ left_to_do s
unfolding finish wake
Quiet-less s s' (finishes _ before inum after e) =
    let shorter = length-middle before inum after in
    let full : length s.st.pending ≡ suc (length (before ++ after)) = rw e shorter in
    let le = signal-less (one_less s (before ++ after)) in omega (arith, full, le)
Quiet-less s s' (wakes _ pos) =
    let same = check-same (record s { woken = s.woken - 1 }) in omega (arith, same, pos)

-- One call that has not returned: it sleeps and a thread is running, or it was woken.
pub data OneCall (r : ℕ) (s : Threads) : Type 0 where
  asleep : s.sleeping ≡ 1 → s.woken ≡ 0 → s.returned ≡ r → s.st.pending ≢ [] → OneCall r s
  awake : s.sleeping ≡ 0 → s.woken ≡ 1 → s.returned ≡ r → OneCall r s
  back : s.sleeping ≡ 0 → s.woken ≡ 0 → s.returned ≡ suc r → s.st.pending ≡ [] → OneCall r s

-- The counter and the number of threads, which fits in it.
abbrev Fits : Threads → Type 0
Fits s = Counted s × (length s.st.pending < 2 ^ 32)

finish-Fits :
    (s : Threads) (before : List ℕ) (inum : ℕ) (after : List ℕ)
    → Fits s
    → s.st.pending ≡ before ++ (inum ∷ after)
    → Fits (finish s (before ++ after))
unfolding finish
finish-Fits s before inum after (c, small) e =
    let shorter = length-middle before inum after in
    let full : length s.st.pending ≡ suc (length (before ++ after)) = rw e shorter in
    (
      finish-Counted s before inum after c e,
      rw (signal-st (one_less s (before ++ after))) (omega (arith, full, small)),
    )

none_left : (l : List ℕ) → length l ≡ 0 → l ≡ []
none_left [] h = refl
none_left (x ∷ l) h = absurd (omega (arith, h))

some_left : (s : Threads) → Fits s → 0 < s.st.nthread → s.st.pending ≢ []
some_left s (c, _) pos e =
    let zero_len : length s.st.pending ≡ 0 = rw e refl in omega (arith, c, pos, zero_len)

check_one :
    (r : ℕ) (s : Threads)
    → Fits s
    → s.sleeping ≡ 0
    → s.woken ≡ 0
    → s.returned ≡ r
    → OneCall r (check_threads s)
unfolding check_threads
check_one r s (c, small) hs hw hr = elim (Bool-cases (ltb 0 s.st.nthread)) [
  | inl h ↦ rw h (asleep (rw hs refl) hw hr (some_left s (c, small) (ltb→lt _ _ h)))
  | inr h ↦
      let zero_count = ltb→le _ _ h in
      rw h (back hs hw (rw hr refl) (none_left _ (omega (arith, c, small, zero_count))))
]

wakes_one :
    (r : ℕ) (s : Threads) (left : List ℕ)
    → s.sleeping ≡ 1
    → s.woken ≡ 0
    → s.returned ≡ r
    → OneCall r (finish s left)
unfolding finish signal
wakes_one r s left hs hw hr =
    rw (lt→ltb 0 s.sleeping (omega (arith, hs))) (awake (omega (arith, hs)) (rw hw refl) hr)

keeps_awake :
    (r : ℕ) (s : Threads) (left : List ℕ)
    → s.sleeping ≡ 0
    → s.woken ≡ 1
    → s.returned ≡ r
    → OneCall r (finish s left)
unfolding finish signal
keeps_awake r s left hs hw hr = rw (le→ltb 0 s.sleeping (omega (arith, hs))) (awake hs hw hr)

not_empty : (before : List ℕ) (x : ℕ) (after : List ℕ) → [] ≢ before ++ (x ∷ after)
not_empty before x after e =
    let len = length-middle before x after in
    let zero_len : 0 ≡ length (before ++ (x ∷ after)) = ap length e in omega (arith, len, zero_len)

Quiet-OneCall :
    (r : ℕ) (s s' : Threads) → Fits s → OneCall r s → Quiet s s' → (Fits s') × OneCall r s'
unfolding wake
Quiet-OneCall r s s' fits one (finishes _ before inum after e) =
    let fits' = finish-Fits s before inum after fits e in
    elim one [
      | asleep hs hw hr _ ↦ (fits', wakes_one r s (before ++ after) hs hw hr)
      | awake hs hw hr ↦ (fits', keeps_awake r s (before ++ after) hs hw hr)
      | back _ _ _ none ↦ absurd (not_empty before inum after (sym none ∙ e))
    ]
Quiet-OneCall r s s' fits one (wakes _ pos) =
    let woke : Threads = record s { woken = s.woken - 1 } in
    elim one [
      | asleep _ hw _ _ ↦ absurd (omega (arith, hw, pos))
      | awake hs hw hr ↦ (rw (check-st woke) fits, check_one r woke fits hs (omega (arith, hw)) hr)
      | back _ hw _ _ ↦ absurd (omega (arith, hw, pos))
    ]

Run-OneCall :
    (r n : ℕ) (s s' : Threads)
    → Fits s
    → OneCall r s
    → Run n s s'
    → (n + left_to_do s' ≤ left_to_do s) × OneCall r s'
Run-OneCall r n s s' fits one (done _) = (omega arith, one)
Run-OneCall r (suc n) s s'' fits one (next _ _ s' _ step run) =
    let (fits', one') = Quiet-OneCall r s s' fits one step in
    let (bound, last) = Run-OneCall r n s' s'' fits' one' run in
    let less = Quiet-less s s' step in (omega (arith, bound, less), last)

returned_none :
    (s s' : Threads) → OneCall s.returned s' → s'.returned ≢ s.returned → s'.st.pending ≡ []
returned_none s s' (asleep _ _ hr _) h = absurd (h hr)
returned_none s s' (awake _ _ hr) h = absurd (h hr)
returned_none s s' (back _ _ _ none) h = none

ends : (s : Threads) (l : List ℕ) → s.st.pending ≡ l → l ≢ [] → (s' : Threads) × Quiet s s'
ends s [] e h = absurd (h refl)
ends s (x ∷ l) e h = (_, finishes s [] x l e)

stuck_returned :
    (s s' : Threads)
    → OneCall s.returned s'
    → ((s'' : Threads) → ¬ Quiet s' s'')
    → s'.returned ≡ suc s.returned
stuck_returned s s' (asleep _ _ _ some) h =
    let (s'', step) = ends s' s'.st.pending refl some in absurd (h s'' step)
stuck_returned s s' (awake _ hw _) h = absurd (h (wake s') (wakes s' (omega (arith, hw))))
stuck_returned s s' (back _ _ hr _) h = hr

-- A caller of Shutdown, with no other call going on, sees every thread end: without a new call or
-- thread no more than 2 * n steps follow, for n threads that are pending, whatever their order; once
-- the call has returned no thread is pending; and when no step is left, it has returned.
pub shutdown_returns :
    (s s' : Threads) (n : ℕ)
    → Counted s
    → length s.st.pending < 2 ^ 32
    → s.sleeping ≡ 0
    → s.woken ≡ 0
    → Run n (shutdown s) s'
    → (n ≤ 2 * length s.st.pending)
      × (s'.returned ≢ s.returned → s'.st.pending ≡ [])
      × (((s'' : Threads) → ¬ Quiet s' s'') → s'.returned ≡ suc s.returned)
unfolding shutdown
shutdown_returns s s' n c small hs hw run =
    let one = check_one s.returned s (c, small) hs hw refl in
    let fits : Fits (check_threads s) = rw (check-st s) (c, small) in
    let (bound, last) = Run-OneCall s.returned n (check_threads s) s' fits one run in
    let same = check-same s in
    (omega (arith, bound, same, hw), returned_none s s' last, stuck_returned s s' last)
