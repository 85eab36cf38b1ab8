-- ===== src/DirectWriteBuf/Tcp/Plan.antt =====
-- What the invariant of the TCP mode of trace/include/DirectWriteBuf.h says of the writer's next
use android_prybar.Base.{
  ℕ, ◌+◌, ◌≤◌, ◌≡◌, refl, inl, inr, Bool, true, false, List, [], ◌∷◌, IsByte, length, All,
}
use android_prybar.DirectWriteBuf.{DirectWriteBuf}
use android_prybar.DirectWriteBuf.Tcp.{
  Action, append, restart, flush, shut_down, join, Worker, waiting, working, sent, exited,
}
use android_prybar.DirectWriteBuf.Tcp.Invariant.{in_flight, Phase, Fits}

-- action and of the thread.

-- What the plan says of its first action.
pub Fits-append :
    (size_of pos : ℕ) (bytes : List ℕ) (rest : List Action) (down : Bool)
    → Fits size_of pos down (append bytes ∷ rest)
    → (pos + length bytes ≤ size_of)
      × All IsByte bytes
      × Fits size_of (pos + length bytes) down rest
Fits-append size_of pos bytes rest false p = p
Fits-append size_of pos bytes rest true p = absurd p

pub Fits-restart :
    (size_of pos : ℕ) (bytes : List ℕ) (rest : List Action) (down : Bool)
    → Fits size_of pos down (restart bytes ∷ rest)
    → (pos ≡ 0)
      × (length bytes ≤ size_of)
      × All IsByte bytes
      × Fits size_of (0 + length bytes) down rest
Fits-restart size_of pos bytes rest false p = p
Fits-restart size_of pos bytes rest true p = absurd p

pub Fits-flush :
    (size_of pos : ℕ) (rest : List Action) (down : Bool)
    → Fits size_of pos down (flush ∷ rest)
    → (down ≡ false) × Fits size_of 0 down rest
Fits-flush size_of pos rest false p = (refl, p)
Fits-flush size_of pos rest true p = absurd p

pub Fits-shut_down :
    (size_of pos : ℕ) (rest : List Action) (down : Bool)
    → Fits size_of pos down (shut_down ∷ rest)
    → (down ≡ false) × (pos ≡ 0) × Fits size_of pos true rest
Fits-shut_down size_of pos rest false p = (refl, p.0, p.1)
Fits-shut_down size_of pos rest true p = absurd p

pub Fits-join :
    (size_of pos : ℕ) (rest : List Action) (down : Bool)
    → Fits size_of pos down (join ∷ rest)
    → (down ≡ true) × (pos ≡ 0) × (rest ≡ [])
Fits-join size_of pos rest false p = absurd p
Fits-join size_of pos rest true p = (refl, p.0, p.1)

pub Fits-end :
    (size_of pos : ℕ) (down : Bool) → Fits size_of pos down [] → (down ≡ true) × (pos ≡ 0)
Fits-end size_of pos false p = absurd p
Fits-end size_of pos true p = (refl, p)

-- With `bg_idle` set and `bg_shutdown` not, the thread waits.
pub idle_waiting :
    (size_of : ℕ) (b : DirectWriteBuf) (w : Worker)
    → Phase size_of w b
    → b.bg_idle ≡ true
    → b.bg_shutdown ≡ false
    → (w ≡ waiting) × (b.bg_pending ≡ false)
idle_waiting size_of b waiting (inl p) i d = (refl, p.1)
idle_waiting size_of b waiting (inr p) i d = absurd (cc (p.0, i))
idle_waiting size_of b (working idx size) p i d = absurd (cc (p.0, i))
idle_waiting size_of b sent p i d = absurd (cc (p.0, i))
idle_waiting size_of b exited p i d = absurd (cc (p.2, d))

-- With `bg_idle` set nothing is in flight.
pub idle_empty :
    (size_of : ℕ) (b : DirectWriteBuf) (w : Worker)
    → Phase size_of w b
    → b.bg_idle ≡ true
    → in_flight w b ≡ []
idle_empty size_of b waiting (inl p) i = rw (p.1)
idle_empty size_of b waiting (inr p) i = absurd (cc (p.0, i))
idle_empty size_of b (working idx size) p i = absurd (cc (p.0, i))
idle_empty size_of b sent p i = refl
idle_empty size_of b exited p i = refl
