-- ===== src/PoolManager/Failover.antt =====
-- Trying the pools in turn: what the loop of `trun` comes to while no connection comes about.
use Prim.Native.Nat.add
use mathlib.Core.List.{Mem, mem-append_left, mem-append_right, mem-cons_self}
use native.Mathlib.Nat.{
  zero-add, zero-mul, mod-eq_of_lt, add-mod_left, add-mod_right, mul-le-mul_right,
}
use gen2_energiminer.Common.{
  ℕ, zero, suc, ◌+◌, ◌-◌, ◌*◌, ◌%◌, ◌<◌, ◌≤◌, ◌≡◌, refl, ap, ap₂, ◌∙◌, Bool, true, false, ◌||◌,
  List, [], ◌∷◌, ◌++◌, Option, none, some, Bool-cases, inl, inr, arith, get_elem?, length,
  if◌then◌else◌, ◌==◌,
}
use gen2_energiminer.PoolUri.{Uri}
use gen2_energiminer.PoolManager.{Manager, View, Action, set_connection, report, round, run_rounds}
use gen2_energiminer.PoolManager.Index.{IsReady}
use gen2_energiminer.PoolManager.Attempt.{Usable, next_idx, advanced, suspends, tries, round_down}

report-IsReady : (m : Manager) → IsReady m → IsReady (advanced m)
unfolding report
report-IsReady m r = ground arith

-- A manager with usable connections whose loop runs, in a round of a client that is down.
pub record IsTrying (v : View) (m : Manager) : Type 0 where
  pub ready : IsReady m
  pub usable : Usable m.connections
  pub down : (v.pending || v.connected) ≡ false
  pub running : m.running ≡ true

advanced-IsTrying : (v : View) (m : Manager) → IsTrying v m → IsTrying v (advanced m)
unfolding report
advanced-IsTrying v m t = record {
  ready = report-IsReady m t.ready;
  usable = t.usable;
  down = t.down;
  running = t.running;
}

run_rounds-cons :
    (v : View) (vs : List View) (m m' k : Manager) (as' bs : List Action)
    → m.running ≡ true
    → round v m ≡ some (m', as')
    → run_rounds vs m' ≡ some (k, bs)
    → run_rounds (v ∷ vs) m ≡ some (k, as' ++ bs)
unfolding run_rounds
run_rounds-cons v vs m m' k as' bs r e f = rw (e, f, r)

run_rounds_halted :
    (vs : List View) (m : Manager) → m.running ≡ false → run_rounds vs m ≡ some (m, [])
unfolding run_rounds
run_rounds_halted [] m r = refl
run_rounds_halted (v ∷ vs) m r = rw r

-- No connection comes about: in none of the rounds is the client connected.
abbrev pub AllDown : List View → Type 0
AllDown [] = Unit {0}
AllDown (v ∷ vs) = (v.connected ≡ false) × AllDown vs

-- The rounds in which the client is not pending either.
abbrev pub free_rounds : List View → ℕ
free_rounds [] = 0
free_rounds (v ∷ vs) = if v.pending then free_rounds vs else suc (free_rounds vs)

abbrev reported : ℕ → Manager → Manager
reported r m = record m { report_passed = r }

reported-IsReady : (r : ℕ) (m : Manager) → IsReady m → IsReady (reported r m)
reported-IsReady r m h = ground arith

-- What these rounds take a manager like `m` to: the place `i` with `a` attempts there; the last of
-- them in which the client was free tried the connection at that place.
pub record Ends (vs : List View) (start m : Manager) (i a : ℕ) : Type 0 where
  pub after : Manager
  pub calls : List Action
  pub runs : run_rounds vs start ≡ some (after, calls)
  pub place : after.active_idx ≡ i
  pub tried :
      0 < free_rounds vs
      → (d : Uri) × (get_elem? m.connections i ≡ some d) × Mem (set_connection d) calls

-- So with any rounds of which `n` are free, whatever has been reported.
abbrev pub Reaches : ℕ → Manager → ℕ → ℕ → Type 0
Reaches n m i a =
    (vs : List View) (r : ℕ) → AllDown vs → free_rounds vs ≡ n → Ends vs (reported r m) m i a

waiting_round : (v : View) (m : Manager) → v.pending ≡ true → round v m ≡ some (report m, [])
unfolding round
waiting_round v m e = rw e refl

next_report : ℕ → Manager → ℕ
next_report r m = (report (reported r m)).report_passed

waits :
    (v : View) (vs : List View) (r : ℕ) (m : Manager) (i a : ℕ)
    → v.pending ≡ true
    → m.running ≡ true
    → Ends vs (reported (next_report r m) m) m i a
    → Ends (v ∷ vs) (reported r m) m i a
unfolding report next_report
waits v vs r m i a e run h = record {
  after = h.after;
  calls = h.calls;
  runs =
      run_rounds-cons v vs (reported r m) (reported (next_report r m) m) h.after [] h.calls run
        (waiting_round v (reported r m) e) h.runs;
  place = h.place;
  tried = λ lt. h.tried (ground (arith, e, lt));
}

Reaches-zero :
    (v : View) (m : Manager) (i a : ℕ) → IsTrying v m → m.active_idx ≡ i → Reaches 0 m i a
Reaches-zero v m i a t p [] r down e = record {
  after = reported r m;
  calls = [];
  runs = unfold run_rounds in refl;
  place = p;
  tried = λ h. absurd (omega arith);
}
Reaches-zero v m i a t p (w ∷ vs) r (_, down) e = elim (Bool-cases w.pending) [
  | inl q ↦
      waits w vs r m i a q t.running
        (Reaches-zero v m i a t p vs (next_report r m) down (ground (arith, e, q)))
  | inr q ↦ absurd (ground (arith, e, q))
]

tries-Mem :
    (mining : Bool) (m : Manager) (d : Uri) (bs : List Action)
    → Mem (set_connection d) (tries mining m d ++ bs)
tries-Mem mining m d bs = mem-append_left bs (mem-append_right (suspends mining m) mem-cons_self)

next_idx_reached : (m : Manager) (r i a : ℕ) → Ends [] (reported r m) m i a → m.active_idx ≡ i
unfolding run_rounds
next_idx_reached m r i a h =
    ap (λ (o : Option (Manager × List Action)). elim o [ none ↦ 0 | some (k, _) ↦ k.active_idx ])
      h.runs
    ∙ h.place

tries_first :
    (v : View) (vs : List View) (r n : ℕ) (m : Manager) (i a : ℕ)
    → v.pending ≡ false
    → v.connected ≡ false
    → IsReady m
    → Usable m.connections
    → m.running ≡ true
    → Reaches n (advanced m) i a
    → AllDown vs
    → free_rounds vs ≡ n
    → Ends (v ∷ vs) (reported r m) m i a
unfolding report
tries_first v vs r n m i a p c ready usable run rest down e =
    let m' = reported r m in
    let (d, f, tried) =
      round_down v m' (reported-IsReady r m ready) usable (ground (arith, p, c)) run in
    let h = rest vs (advanced m').report_passed down e in
    record {
      after = h.after;
      calls = tries v.mining m' d ++ h.calls;
      runs = run_rounds-cons v vs m' (advanced m') h.after _ _ run tried h.runs;
      place = h.place;
      tried = λ _. elim (Bool-cases (0 == n)) [
        | inl z ↦
            let last : 0 ≡ n = ground (arith, z) in
            let same : next_idx m ≡ i = next_idx_reached (advanced m) 0 i a (rest [] 0 tt last) in
            (d, rw (← same) f, tries-Mem v.mining m' d h.calls)
        | inr z ↦
            let (x, g, b) = h.tried (ground (arith, z, e)) in
            (x, g, mem-append_right (tries v.mining m' d) b)
      ];
    }

Reaches-suc :
    (v : View) (n : ℕ) (m : Manager) (i a : ℕ)
    → IsTrying v m
    → Reaches n (advanced m) i a
    → Reaches (suc n) m i a
Reaches-suc v n m i a t h [] r down e = absurd (omega (arith, e))
Reaches-suc v n m i a t h (w ∷ vs) r (c, down) e = elim (Bool-cases w.pending) [
  | inl q ↦
      waits w vs r m i a q t.running
        (Reaches-suc v n m i a t h vs (next_report r m) down (ground (arith, e, q)))
  | inr q ↦ tries_first w vs r n m i a q c t.ready t.usable t.running h down (ground (arith, e, q))
]

-- Before the threshold a round only counts another attempt: `n` of them, and then `b` more rounds.
again_then :
    (v : View) (n b : ℕ) (m : Manager) (i a : ℕ)
    → IsTrying v m
    → m.attempt + n ≤ m.max_attempts
    → ((k : Manager)
        → IsTrying v k
        → k.active_idx ≡ m.active_idx
        → k.attempt ≡ m.attempt + n
        → k.connections ≡ m.connections
        → k.max_attempts ≡ m.max_attempts
        → Reaches b k i a)
    → Reaches (n + b) m i a
unfolding report
again_then v zero b m i a t h rest = rw zero-add (rest m t refl (omega arith) refl refl)
again_then v (suc n) b m i a t h rest = rw (add.suc n b) (
    Reaches-suc v (n + b) m i a t (
      again_then v n b (advanced m) i a (advanced-IsTrying v m t) (ground arith)
        (λ k t' p c l x. rest k t' (ground arith) (ground arith) l x)))

wrap_step : (i j n : ℕ) → i < n → ((if i + 1 == n then 0 else i + 1) + j) % n ≡ (i + suc j) % n
wrap_step i j n h = elim (Bool-cases (i + 1 == n)) [
  | inl last ↦ rw last (
      let e : i + suc j ≡ n + j = ground arith in
      rw (e, add-mod_left) (ap (λ t. t % n) (omega arith)))
  | inr more ↦ rw more (ap (λ t. t % n) (omega arith))
]

next_idx_full :
    (m : Manager) (most : ℕ)
    → m.max_attempts ≡ suc most
    → m.attempt ≡ suc most
    → next_idx m ≡ (if m.active_idx + 1 == length m.connections then 0 else m.active_idx + 1)
next_idx_full m most x c = ground arith

-- From a full count, each `max_attempts` rounds move on to the next connection, and the list is
-- gone through in a circle.
turns :
    (v : View) (most j : ℕ) (m : Manager) (i : ℕ)
    → IsTrying v m
    → m.max_attempts ≡ suc most
    → m.attempt ≡ suc most
    → (m.active_idx + j) % length m.connections ≡ i
    → Reaches (j * suc most) m i (suc most)
unfolding report
turns v most zero m i t x c p =
    rw zero-mul (Reaches-zero v m i (suc most) t (ground (arith, mod-eq_of_lt t.ready.in_range)))
turns v most (suc j) m i t x c p =
    let e : suc j * suc most ≡ suc (most + j * suc most) = omega arith in
    rw e (
      Reaches-suc v (most + j * suc most) m i (suc most) t (
        again_then v most (j * suc most) (advanced m) i (suc most) (advanced-IsTrying v m t)
          (ground arith)
          (λ k t' q d l y. turns v most j k i t' (y ∙ x) (ground arith) (
            ap₂ (λ a cs. (a + j) % length cs) (q ∙ next_idx_full m most x c) l
            ∙ wrap_step m.active_idx j (length m.connections) t.ready.in_range
            ∙ p))))

circle : (t i n : ℕ) → t < n → i < n → (i + (t + n - i)) % n ≡ t
circle t i n ht hi =
    let e : i + (t + n - i) ≡ t + n = omega arith in rw (e, add-mod_right) (mod-eq_of_lt ht)

rounds_bound :
    (a x j n : ℕ)
    → 0 < x
    → 0 < j
    → j < 2 * n
    → (0 < x - a + j * suc (x - 1)) × (x - a + j * suc (x - 1) ≤ 2 * n * x)
rounds_bound a x j n hx lo hi =
    let e : suc (x - 1) ≡ x = omega arith in
    let least : 1 * x ≤ j * x = grind arith in
    let most : suc j * x ≤ 2 * n * x = mul-le-mul_right x hi in rw e (omega arith)

prefix :
    (vs : List View) (n : ℕ)
    → AllDown vs
    → n ≤ free_rounds vs
    → (us ws : List View) × (vs ≡ us ++ ws) × AllDown us × (free_rounds us ≡ n)
prefix vs zero down h = ([], vs, refl, tt, refl)
prefix [] (suc n) down h = absurd (omega (arith, h))
prefix (v ∷ vs) (suc n) (c, down) h = elim (Bool-cases v.pending) [
  | inl p ↦
      let (us, ws, e, d, f) = prefix vs (suc n) down (ground (arith, h, p)) in
      (v ∷ us, ws, ap (λ t. v ∷ t) e, (c, d), ground (arith, p, f))
  | inr p ↦
      let (us, ws, e, d, f) = prefix vs n down (ground (arith, h, p)) in
      (v ∷ us, ws, ap (λ t. v ∷ t) e, (c, d), ground (arith, p, f))
]

-- Take a running manager whose index is in range and whose connections are all usable, which allows
-- at least one attempt and has not counted more than it allows, and any rounds in which the client
-- is never connected and may be pending, as it is after each attempt. If at least
-- `2 * max_attempts` rounds for each connection of the list find the client free, then within
-- that many free rounds every connection of the list is tried.
pub every_pool_tried :
    (vs : List View) (m : Manager) (target : ℕ)
    → IsReady m
    → Usable m.connections
    → m.running ≡ true
    → 0 < m.max_attempts
    → m.attempt ≤ m.max_attempts
    → target < length m.connections
    → AllDown vs
    → 2 * length m.connections * m.max_attempts ≤ free_rounds vs
    → (us ws : List View) × (vs ≡ us ++ ws)
      × (free_rounds us ≤ 2 * length m.connections * m.max_attempts)
      × (k : Manager) × (calls : List Action) × (run_rounds us m ≡ some (k, calls))
      × (d : Uri) × (get_elem? m.connections target ≡ some d)
      × Mem (set_connection d) calls
every_pool_tried vs m target ready usable run pos h in_list down enough =
    let v : View = record { pending = false; connected = false; mining = false } in
    let t : IsTrying v m = record { ready = ready; usable = usable; down = refl; running = run } in
    let most = m.max_attempts - 1 in
    let first = m.max_attempts - m.attempt in
    let j = target + length m.connections - m.active_idx in
    let r = again_then v first (j * suc most) m target (suc most) t (omega arith) λ k t' q d l y.
      turns v most j k target t' (omega (arith, y)) (omega (arith, d)) (
        ap₂ (λ a cs. (a + j) % length cs) q l
        ∙ circle target m.active_idx (length m.connections) in_list t.ready.in_range) in
    let bound =
      rounds_bound m.attempt m.max_attempts j (length m.connections) pos
        (omega (arith, t.ready.in_range)) (omega (arith, t.ready.in_range)) in
    let (us, ws, e, down', count) =
      prefix vs (first + j * suc most) down (omega (arith, bound.1, enough)) in
    let ends = r us m.report_passed down' count in
    let (x, g, b) = ends.tried (omega (arith, count, bound.0)) in
    (us, ws, e, omega (arith, count, bound.1), ends.after, ends.calls, ends.runs, x, g, b)
