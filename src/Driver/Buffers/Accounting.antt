-- ===== src/Driver/Buffers/Accounting.antt =====
-- What smarteth_prepare_rx_buffers takes from the kernel and smarteth_free_rx_buffers gives back.
use smart_eth.Base.{
  ℕ, zero, suc, ◌+◌, ◌-◌, ◌≤◌, ◌<◌, ◌≡◌, ◌≢◌, refl, ap, subst, ◌∙◌, arith, Bool, true, false,
  Option, none, some, store, ◌⊎◌, inl, inr,
}
use smart_eth.Driver.{Driver, Held, ring_size, enomem}
use smart_eth.Driver.Buffers.{
  BufferAnswer, prepared, and_next, prepare_from, prepare_rx_buffers, free_rx_buffers, free_one,
  free_from, set_rx_buf,
}

-- The kernel gives a buffer.
abbrev pub Good : BufferAnswer → Type 0
Good (none, map) = ⊥
Good (some buf, none) = ⊥
Good (some buf, some dma) = Unit

abbrev is_some : Option ℕ → Bool
is_some none = false
is_some (some x) = true

-- So many more buffers.
abbrev pub more : ℕ → Held → Held
more n h = record h { allocs = h.allocs + n; maps = h.maps + n }

more-suc : (n : ℕ) (h : Held) → more n (more 1 h) ≡ more (suc n) h
more-suc n h =
    let e : (m : ℕ) → m + 1 + n ≡ m + suc n = λ m. omega arith in rw (e h.allocs, e h.maps) refl

more-zero : (h : Held) → h ≡ more 0 h
more-zero h = let e : (m : ℕ) → m + 0 ≡ m = λ m. omega arith in rw (e h.allocs, e h.maps) refl

abbrev pub less : ℕ → Held → Held
less n h = record h { allocs = h.allocs - n; maps = h.maps - n }

less-suc : (n : ℕ) (h : Held) → less n (less 1 h) ≡ less (suc n) h
less-suc n h =
    let e : (m : ℕ) → m - 1 - n ≡ m - suc n = λ m. omega arith in rw (e h.allocs, e h.maps) refl

less-zero : (h : Held) → h ≡ less 0 h
less-zero h = let e : (m : ℕ) → m - 0 ≡ m = λ m. omega arith in rw (e h.allocs, e h.maps) refl

pub less-more : (n : ℕ) (h : Held) → less n (more n h) ≡ h
less-more n h = let e : (m : ℕ) → m + n - n ≡ m = λ m. omega arith in rw (e h.allocs, e h.maps) refl

eq_or_above : (i j : ℕ) → i ≤ j → (i ≡ j) ⊎ (suc i ≤ j)
eq_or_above i j h = ground arith

store_same : (f : ℕ → Option ℕ) (i j : ℕ) (v : Option ℕ) → i ≡ j → store f i v j ≡ v
store_same f i j v e = ground arith

store_other : (f : ℕ → Option ℕ) (i j : ℕ) (v : Option ℕ) → i ≢ j → store f i v j ≡ f j
store_other f i j v ne = ground arith

module _ {D : Type 0} where
  abbrev pub Holds : ℕ → ℕ → Driver D → Type 0
  Holds i left d = (j : ℕ) → i ≤ j → j < i + left → is_some (d.adapter.rx_buf j) ≡ true

  -- What a run of the preparation from buffer `i` on has done.
  abbrev pub Took : ℕ → ℕ → Driver D → Option ℕ × Driver D → Type 0
  Took i left d r =
      (r.0 ≡ none)
      × (r.1.held ≡ more left d.held)
      × ((j : ℕ) → j < i → r.1.adapter.rx_buf j ≡ d.adapter.rx_buf j)
      × Holds i left r.1

  next-Took :
      (i left buf dma : ℕ) (d : Driver D) (r : Option ℕ × Driver D)
      → Took (suc i) left (prepared i buf dma d) r
      → Took i (suc left) d r
  next-Took i left buf dma d r t = (
    t.0,
    t.1 ∙ more-suc left d.held,
    λ j below. t.2 j (omega arith) ∙ store_other d.adapter.rx_buf i j (some buf) (omega arith),
    λ j from to. elim (eq_or_above i j from) [
      | inl same ↦
          ap is_some (t.2 j (omega arith) ∙ store_same d.adapter.rx_buf i j (some buf) same)
      | inr above ↦ t.3 j above (omega arith)
    ],
  )

  and_next-Good :
      (o : BufferAnswer) (i : ℕ) (d : Driver D) (k : Driver D → Option ℕ × Driver D)
      → Good o
      → (buf : ℕ) × (dma : ℕ) × (and_next i d o k ≡ k (prepared i buf dma d))
  and_next-Good (none, map) i d k g = absurd g
  and_next-Good (some buf, none) i d k g = absurd g
  and_next-Good (some buf, some dma) i d k g = (buf, dma, refl)

  prepare_from-Took :
      (answers : ℕ → BufferAnswer) (left i : ℕ) (d : Driver D)
      → ((j : ℕ) → Good (answers j))
      → Took i left d (prepare_from answers left i d)
  unfolding prepare_from
  prepare_from-Took answers zero i d good =
      (refl, more-zero d.held, λ j below. refl, λ j from to. absurd (omega arith))
  prepare_from-Took answers (suc left) i d good =
      let g = and_next-Good (answers i) i d (prepare_from answers left (suc i)) (good i) in
      rw (g.2) (
        next-Took i left g.0 g.1 d (prepare_from answers left (suc i) (prepared i g.0 g.1 d))
          (prepare_from-Took answers left (suc i) (prepared i g.0 g.1 d) good))

  and_next_refused :
      (o : BufferAnswer) (i : ℕ) (d : Driver D) (k : Driver D → Option ℕ × Driver D)
      → ¬ Good o
      → and_next i d o k ≡ (some enomem, set_rx_buf i none d)
  and_next_refused (none, map) i d k bad = refl
  and_next_refused (some buf, none) i d k bad = refl
  and_next_refused (some buf, some dma) i d k bad = absurd (bad tt)

  prepare_from_stops :
      (answers : ℕ → BufferAnswer) (left j i : ℕ) (d : Driver D)
      → j < left
      → ((n : ℕ) → n < i + j → Good (answers n))
      → ¬ Good (answers (i + j))
      → (let r = prepare_from answers left i d in (r.0 ≡ some enomem) × (r.1.held ≡ more j d.held))
  unfolding prepare_from
  prepare_from_stops answers zero j i d short good bad = absurd (omega arith)
  prepare_from_stops answers (suc left) zero i d short good bad =
      let e : i + 0 ≡ i = omega arith in
      rw
        (and_next_refused (answers i) i d (prepare_from answers left (suc i))
          (subst (λ (n : ℕ). ¬ Good (answers n)) e bad))
        (refl, more-zero d.held)
  prepare_from_stops answers (suc left) (suc j) i d short good bad =
      let g =
        and_next-Good (answers i) i d (prepare_from answers left (suc i)) (good i (omega arith)) in
      let e : i + suc j ≡ suc i + j = omega arith in
      let r =
        prepare_from_stops answers left j (suc i) (prepared i g.0 g.1 d) (omega arith)
          (λ n h. good n (omega arith)) (subst (λ (n : ℕ). ¬ Good (answers n)) e bad) in
      rw (g.2) (r.0, r.1 ∙ more-suc j d.held)

  freed :
      (o : Option ℕ) (i : ℕ) (d : Driver D)
      → is_some o ≡ true
      → free_one i o d ≡ record d {
        adapter = record (d.adapter) { rx_buf = store d.adapter.rx_buf i none };
        held = less 1 d.held;
      }
  freed none i d h = cc
  freed (some buf) i d h = refl

  free_from-less :
      (left i : ℕ) (d : Driver D) → Holds i left d → (free_from left i d).held ≡ less left d.held
  unfolding free_from
  free_from-less zero i d h = less-zero d.held
  free_from-less (suc left) i d h =
      ap (λ (d' : Driver D). (free_from left (suc i) d').held)
        (freed (d.adapter.rx_buf i) i d (h i (omega arith) (omega arith)))
      ∙ free_from-less left (suc i)
          (record d {
            adapter = record (d.adapter) { rx_buf = store d.adapter.rx_buf i none };
            held = less 1 d.held;
          })
          (λ j from to.
            ap is_some (store_other d.adapter.rx_buf i j none (omega arith))
            ∙ h j (omega arith) (omega arith))
      ∙ less-suc left d.held

  pub prepare_rx_buffers-Took :
      (answers : ℕ → BufferAnswer) (d : Driver D)
      → ((j : ℕ) → Good (answers j))
      → Took 0 ring_size d (prepare_rx_buffers answers d)
  unfolding prepare_rx_buffers
  prepare_rx_buffers-Took answers d good = prepare_from-Took answers ring_size 0 d good

  -- The preparation stops at the first buffer that the kernel does not give, and keeps those before.
  pub prepare_rx_buffers_stops :
      (answers : ℕ → BufferAnswer) (j : ℕ) (d : Driver D)
      → j < ring_size
      → ((n : ℕ) → n < j → Good (answers n))
      → ¬ Good (answers j)
      → (let r = prepare_rx_buffers answers d in (r.0 ≡ some enomem) × (r.1.held ≡ more j d.held))
  unfolding prepare_rx_buffers
  prepare_rx_buffers_stops answers j d short good bad =
      prepare_from_stops answers ring_size j 0 d short (λ n h. good n (omega arith))
        (subst (λ (n : ℕ). ¬ Good (answers n)) (omega arith) bad)

  pub free_rx_buffers-less :
      (d : Driver D) → Holds 0 ring_size d → (free_rx_buffers d).held ≡ less ring_size d.held
  unfolding free_rx_buffers
  free_rx_buffers-less d h = free_from-less ring_size 0 d h
