-- ===== src/Rtl/CommandLine/Parse.antt =====
-- `RtlCommandLineStringToDescription`, by what a round of its loop may write.
use boron.Prelude.{
  ℕ, zero, suc, ◌+◌, ◌-◌, ◌≤◌, ◌<◌, ◌≡◌, ◌≢◌, ◌⊎◌, ◌∙◌, inl, inr, refl, subst, Bool, true, false,
  ◌||◌, Option, none, some, arith, ◌==◌, if◌then◌else◌, Bool-cases,
}
use boron.Prelude.Memory.{Memory, write}
use boron.Prelude.Status.{Bstatus, success, insufficient_memory, invalid_parameter}
use boron.Rtl.Str.Length.{IsString, IsString-next, strlen_iff}
use boron.Rtl.CommandLine.{
  quoted_loop, parse_round, parse_loop, terminate, command_line_string_to_description,
}

-- From the index `i`, no more than `k` bytes were written, and none but these.
pub record Within (i k : ℕ) (d : Memory) (i' : ℕ) (d' : Memory) : Type 0 where
  pub end : i' ≤ i + k
  pub kept : (x : ℕ) → (x < i) ⊎ (i + k ≤ x) → d' x ≡ d x

Within-write :
    (i k v : ℕ) (d : Memory) (i' : ℕ) (d' : Memory)
    → Within (i + 1) k (write d i v) i' d'
    → Within i (suc k) d i' d'
Within-write i k v d i' d' w = record {
  end = omega (arith, w.end);
  kept = λ x h. ground (arith, w.kept x);
}

-- The loop inside of quotes stops at a place of the string, with what is left of it.
record Quoted (m : Memory) (s k i : ℕ) (d : Memory) (s' i' : ℕ) (d' : Memory) : Type 0 where
  passed : ℕ
  few : passed ≤ k
  place : s' ≡ s + passed
  index : i' ≡ i + passed
  left : IsString m s' (k - passed)
  within : Within i k d i' d'

Quoted-here : (m : Memory) (s k i : ℕ) (d : Memory) → IsString m s k → Quoted m s k i d s i d
Quoted-here m s k i d is = record {
  passed = 0;
  few = omega arith;
  place = omega arith;
  index = omega arith;
  left = subst (IsString m s) (omega arith) is;
  within = record { end = omega arith; kept = λ x h. refl };
}

quoted_loop-Quoted :
    (f : ℕ) (m : Memory) (mark s i k : ℕ) (d : Memory)
    → IsString m s k
    → k < f
    → (s' : ℕ) × (i' : ℕ) × (d' : Memory) × (quoted_loop f m mark s i d ≡ some (s', i', d'))
      × Quoted m s k i d s' i' d'
unfolding quoted_loop
quoted_loop-Quoted zero m mark s i k d is h = absurd (omega arith)
quoted_loop-Quoted (suc f) m mark s i zero d is h =
    let stop : (m s == 0 || m s == mark) ≡ true = ground (arith, is.ends) in
    (s, i, d, rw stop refl, Quoted-here m s 0 i d is)
quoted_loop-Quoted (suc f) m mark s i (suc k) d is h = elim (Bool-cases (m s == 0 || m s == mark)) [
  | inl stop ↦ (s, i, d, rw stop refl, Quoted-here m s (suc k) i d is)
  | inr more ↦
      let (s', i', d', run, q) =
        quoted_loop-Quoted f m mark (s + 1) (i + 1) k (write d i (m s)) (IsString-next m s k is)
          (omega arith) in
      (
        s',
        i',
        d',
        rw more run,
        record {
          passed = suc q.passed;
          few = omega (arith, q.few);
          place = omega (arith, q.place);
          index = omega (arith, q.index);
          left = subst (IsString m s') (omega (arith, q.few)) q.left;
          within = Within-write i k (m s) d i' d' q.within;
        },
      )
]

-- How the main loop ends on a string of `k` characters.
abbrev Parsed : Memory → ℕ → ℕ → Memory → Option (Bstatus × ℕ × Memory) → Type 0
Parsed m k i d o =
    (ok : Bool) × (i' : ℕ) × (d' : Memory) × (o
      ≡ some (if ok then success else invalid_parameter, i', d'))
    × Within i k d i' d'

Parsed-write :
    (m : Memory) (i k v : ℕ) (d : Memory) (o : Option (Bstatus × ℕ × Memory))
    → Parsed m k (i + 1) (write d i v) o
    → Parsed m (suc k) i d o
Parsed-write m i k v d o (ok, i', d', run, w) = (ok, i', d', run, Within-write i k v d i' d' w)

-- With one character less, or after some.
Parsed-skip :
    (m : Memory) (i k : ℕ) (d : Memory) (j n : ℕ) (d' : Memory) (o : Option (Bstatus × ℕ × Memory))
    → Within i k d j d'
    → j + n ≤ i + k
    → i ≤ j
    → Parsed m n j d' o
    → Parsed m k i d o
Parsed-skip m i k d j n d' o w le low (ok, i', d'', run, w') = (
  ok,
  i',
  d'',
  run,
  record { end = omega (arith, w'.end); kept = λ x h. w'.kept x (ground arith) ∙ w.kept x h },
)

Parsed-here :
    (m : Memory) (ok : Bool) (i k : ℕ) (d : Memory)
    → Parsed m k i d (some (if ok then success else invalid_parameter, i, d))
Parsed-here m ok i k d = (ok, i, d, refl, record { end = omega arith; kept = λ x h. refl })

Within-wider :
    (i k : ℕ) (d : Memory) (i' : ℕ) (d' : Memory) → Within i k d i' d' → Within i (suc k) d i' d'
Within-wider i k d i' d' w = record {
  end = omega (arith, w.end);
  kept = λ x h. w.kept x (ground arith);
}

module _ (again : ℕ → ℕ → Memory → Option (Bstatus × ℕ × Memory)) (m : Memory) (i k : ℕ)
    (d : Memory)
    (ih : (s' j n : ℕ) (d' : Memory)
      → IsString m s' n
      → n ≤ k
      → Parsed m n j d' (again s' j d')) where
  escape-Parsed :
      (s t n : ℕ)
      → IsString m s n
      → n ≤ k
      → (m s == 0) ≡ false
      → t ≡ s + 1
      → Parsed m (suc k) i d (again t (i + 1) (write d i (m s)))
  escape-Parsed s t zero is le real e = absurd (ground (arith, is.ends))
  escape-Parsed s t (suc n) is le real e =
      Parsed-skip m i (suc k) d (i + 1) n (write d i (m s)) _
        (record { end = omega arith; kept = λ x h. ground arith }) (omega arith) (omega arith)
        (ih t (i + 1) n (write d i (m s))
          (subst (λ a. IsString m a n) (omega arith) (IsString-next m s n is)) (omega arith))

  after_quote-Parsed :
      (s s' i' : ℕ) (d' : Memory)
      → Quoted m s k i d s' i' d'
      → Parsed m
          (suc k)
          i
          d
          (if m s' == 0 then some (invalid_parameter, i', d') else again (s' + 1) i' d')
  after_quote-Parsed s s' i' d' q =
      let w = Within-wider i k d i' d' q.within in
      elim (Bool-cases (m s' == 0)) [
        | inl stop ↦ rw stop (false, i', d', refl, w)
        | inr closed ↦
            let n = k - q.passed - 1 in
            let more : k - q.passed ≢ 0 = λ e. absurd (ground (arith, q.left.ends, e)) in
            let left : IsString m s' (suc n) = subst (IsString m s') (omega arith) q.left in
            rw closed (
              Parsed-skip m i (suc k) d i' n d' _ w (omega (arith, q.index, q.few))
                (omega (arith, q.index))
                (ih (s' + 1) i' n d' (IsString-next m s' n left) (omega arith)))
      ]

parse_round-Parsed :
    (again : ℕ → ℕ → Memory → Option (Bstatus × ℕ × Memory)) (quoted : Option (ℕ × ℕ × Memory))
    (m : Memory) (s i k : ℕ) (d : Memory)
    → IsString m s (suc k)
    → ((s' j n : ℕ) (d' : Memory) → IsString m s' n → n ≤ k → Parsed m n j d' (again s' j d'))
    → ((s' : ℕ) × (i' : ℕ) × (d' : Memory) × (quoted ≡ some (s', i', d'))
        × Quoted m (s + 1) k i d s' i' d')
    → Parsed m (suc k) i d (parse_round again quoted m s i d)
unfolding parse_round
parse_round-Parsed again quoted m s i k d is ih q =
    let next = IsString-next m s k is in
    let there : (m s == 0) ≡ false = ground (arith, is.before 0) in
    rw there (elim (Bool-cases (m s == 0x20)) [
      | inl space ↦
          rw space
            (Parsed-write m i k 0 d _ (ih (s + 1) (i + 1) k (write d i 0) next (omega arith)))
      | inr no_space ↦ rw no_space (elim (Bool-cases (m s == 0x5c)) [
        | inl slash ↦ rw slash (elim (Bool-cases (m (s + 1) == 0)) [
          | inl stray ↦ rw stray (Parsed-here m false i (suc k) d)
          | inr escaped ↦ rw escaped (
              escape-Parsed again m i k d ih (s + 1) (s + 2) k next (omega arith) escaped
                (omega arith))
        ])
        | inr no_slash ↦ rw no_slash (elim (Bool-cases (m s == 0x22 || m s == 0x27)) [
          | inl mark ↦ rw (mark, q.3) (after_quote-Parsed again m i k d ih (s + 1) q.0 q.1 q.2 q.4)
          | inr normal ↦ rw normal (
              Parsed-write m i k (m s) d _
                (ih (s + 1) (i + 1) k (write d i (m s)) next (omega arith)))
        ])
      ])
    ])

parse_loop-Parsed :
    (f : ℕ) (m : Memory) (s i k : ℕ) (d : Memory)
    → IsString m s k
    → k < f
    → Parsed m k i d (parse_loop f m s i d)
unfolding parse_loop
parse_loop-Parsed zero m s i k d is h = absurd (omega arith)
parse_loop-Parsed (suc f) m s i zero d is h =
    let stop : (m s == 0) ≡ true = ground (arith, is.ends) in
    rw (stop, parse_round) (Parsed-here m true i 0 d)
parse_loop-Parsed (suc f) m s i (suc k) d is h =
    parse_round-Parsed (parse_loop f m) (quoted_loop f m (m s) (s + 1) i d) m s i k d is
      (λ s' j n d' is' le. parse_loop-Parsed f m s' j n d' is' (omega arith))
      (quoted_loop-Quoted f m (m s) (s + 1) i k d (IsString-next m s k is) (omega arith))

-- How `RtlCommandLineStringToDescription` ends on a string of `k` characters.
abbrev pub Described : Bool → Memory → ℕ → Bstatus × Option Memory → Type 0
Described got fresh k r =
    ((got ≡ false) × (r ≡ (insufficient_memory, none)))
    ⊎ ((got ≡ true) × (r ≡ (invalid_parameter, none)))
    ⊎ ((got ≡ true)
        × ((n : ℕ) × (d : Memory) × (r ≡ (success, some d))
            × (n ≤ k)
            × (d n ≡ 0)
            × (d (n + 1) ≡ 0)
            × ((x : ℕ) → k + 2 ≤ x → d x ≡ fresh x)))

terminate-Described :
    (ok : Bool) (fresh : Memory) (k i' : ℕ) (d' : Memory)
    → Within 0 k fresh i' d'
    → Described true fresh k (terminate (if ok then success else invalid_parameter, i', d'))
unfolding terminate
terminate-Described false fresh k i' d' w = inr (inl (refl, refl))
terminate-Described true fresh k i' d' w = inr (
    inr (
      refl,
      (
        i',
        write (write d' i' 0) (i' + 1) 0,
        refl,
        omega (arith, w.end),
        ground arith,
        ground arith,
        λ x h. ground (arith, w.end, w.kept x),
      ),
    ))

-- With more rounds than the string has characters `RtlCommandLineStringToDescription` returns: with
-- STATUS_INSUFFICIENT_MEMORY exactly where two bytes more than the string has characters cannot be had; with
-- STATUS_INVALID_PARAMETER; or with a description that ends by two zeros, the second of them among these
-- bytes, and nothing outside of them has been written.
pub command_line-Described :
    (f : ℕ) (alloc : ℕ → Bool) (fresh m : Memory) (string k : ℕ)
    → IsString m string k
    → k < f
    → (r : Bstatus × Option Memory) × (command_line_string_to_description f alloc fresh m string
        ≡ some r)
      × Described (alloc (k + 2)) fresh k r
unfolding command_line_string_to_description terminate
command_line-Described f alloc fresh m string k is lt =
    let len = (strlen_iff f m string k).1 (is, lt) in
    rw (len, command_line_string_to_description)
      (elim (Bool-cases (alloc (k + 2))) [
        | inr failed ↦ rw failed ((insufficient_memory, none), refl, inl (refl, refl))
        | inl got ↦
            let (ok, i', d', run, w) = parse_loop-Parsed f m string 0 k fresh is lt in
            let status = if ok then success else invalid_parameter in
            rw (got, run) (terminate (status, i', d'), refl, terminate-Described ok fresh k i' d' w)
      ])
