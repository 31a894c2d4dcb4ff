-- ===== src/Psbt/Store.antt =====
-- Objects behind `Arc<Mutex<A>>`. A handle is a number, and handles are given out in order; what stands at handles that
-- have not been given out does not matter.
use native.Mathlib.Decide.{ℕ_discrete}
use bdk_ffi.Prelude.{ℕ, suc, ◌<◌, ◌≡◌, ◌≢◌, refl, arith}

pub record Store (A : Type 0) : Type 0 where
  pub content : ℕ → A
  pub next : ℕ

module _ {A : Type 0} where
  -- The content at `k`, where the content at `h` is `a`.
  abbrev pub updated : {h k : ℕ} → Dec (h ≡ k) → A → A → A
  updated (yes _) a old = a
  updated (no _) a old = old

  -- Writing through the lock.
  unfoldable pub put : ℕ → A → Store A → Store A
  put h a s = record s { content = λ k. updated (ℕ_discrete h k) a (s.content k) }

  -- `Arc::new(Mutex::new(a))`
  unfoldable pub add : A → Store A → ℕ × Store A
  unfolding put
  add a s = (s.next, record (put s.next a s) { next = suc s.next })

  updated_same : {h : ℕ} (d : Dec (h ≡ h)) (a old : A) → updated d a old ≡ a
  updated_same (yes _) a old = refl
  updated_same (no different) a old = elim (different refl) [ ]

  updated_other : {h k : ℕ} (d : Dec (h ≡ k)) (a old : A) → h ≢ k → updated d a old ≡ old
  updated_other (yes same) a old different = elim (different same) [ ]
  updated_other (no _) a old different = refl

  pub put_same : (h : ℕ) (a : A) (s : Store A) → (put h a s).content h ≡ a
  unfolding put
  put_same h a s = updated_same (ℕ_discrete h h) a (s.content h)

  pub put_other : (h k : ℕ) (a : A) (s : Store A) → h ≢ k → (put h a s).content k ≡ s.content k
  unfolding put
  put_other h k a s different = updated_other (ℕ_discrete h k) a (s.content k) different

  pub add_new : (a : A) (s : Store A) → (add a s).1.content (add a s).0 ≡ a
  unfolding add put
  add_new a s = put_same s.next a s

  pub add_old : (a : A) (k : ℕ) (s : Store A) → k < s.next → (add a s).1.content k ≡ s.content k
  unfolding add put
  add_old a k s below = put_other s.next k a s (λ same. omega arith)
