-- ===== src/Store/File/Ends.antt =====
-- How code that works on the disk ends, from how its parts end.
use determa_state_python.Prelude.{ℕ, zero, suc, ◌≡◌, refl}
use determa_state_python.Store.File.{
  Disk, How, returns, raises, killed, Code, raised_on, go_on, end_with, handle, at_once_by,
}

module _ {Byte : Type 0} where
  -- What holds of the disk where code returns, where an exception leaves it, and where it is killed.
  abbrev pub Ends : (R X K : Disk Byte → Type 0) → How × Disk Byte → Type 0
  Ends R X K (returns, d) = R d
  Ends R X K (raises, d) = X d
  Ends R X K (killed, d) = K d

  module _ (R X K : Disk Byte → Type 0) where
    pub Ends-go_on :
        (S : Disk Byte → Type 0) (out : How × Disk Byte) (q : Code Byte)
        → Ends S X K out
        → ((d : Disk Byte) → S d → Ends R X K (q d))
        → Ends R X K (go_on q out)
    Ends-go_on S (returns, d) q h f = f d h
    Ends-go_on S (raises, d) q h f = h
    Ends-go_on S (killed, d) q h f = h

    pub Ends-raised_on : (out : How × Disk Byte) → Ends X X K out → Ends R X K (raised_on out)
    Ends-raised_on (returns, d) h = h
    Ends-raised_on (raises, d) h = h
    Ends-raised_on (killed, d) h = h

    pub Ends-end_with :
        (S Y : Disk Byte → Type 0) (out : How × Disk Byte) (q : Code Byte)
        → Ends S Y K out
        → ((d : Disk Byte) → S d → Ends R X K (q d))
        → ((d : Disk Byte) → Y d → Ends X X K (q d))
        → Ends R X K (end_with q out)
    Ends-end_with S Y (returns, d) q h f g = f d h
    Ends-end_with S Y (raises, d) q h f g = Ends-raised_on (q d) (g d h)
    Ends-end_with S Y (killed, d) q h f g = h

    pub Ends-handle :
        (Y : Disk Byte → Type 0) (out : How × Disk Byte) (q : Code Byte)
        → Ends R Y K out
        → ((d : Disk Byte) → Y d → Ends X X K (q d))
        → Ends R X K (handle q out)
    Ends-handle Y (returns, d) q h g = h
    Ends-handle Y (raises, d) q h g = Ends-raised_on (q d) (g d h)
    Ends-handle Y (killed, d) q h g = h

    pub Ends-at_once :
        (h : How) (n : ℕ) (effect : Disk Byte → Disk Byte) (d : Disk Byte)
        → (h ≡ returns → R (effect d))
        → (h ≡ raises → X d)
        → K d
        → K (effect d)
        → Ends R X K (at_once_by h n effect d)
    Ends-at_once returns n effect d r x k l = r refl
    Ends-at_once raises n effect d r x k l = x refl
    Ends-at_once killed zero effect d r x k l = k
    Ends-at_once killed (suc n) effect d r x k l = l

  -- Wherever code ends.
  pub Ends-everywhere : (P : Disk Byte → Type 0) (h : How) (d : Disk Byte) → P d → Ends P P P (h, d)
  Ends-everywhere P returns d p = p
  Ends-everywhere P raises d p = p
  Ends-everywhere P killed d p = p

  pub Ends-imp :
      (R R' X X' K K' : Disk Byte → Type 0) (out : How × Disk Byte)
      → ((d : Disk Byte) → R d → R' d)
      → ((d : Disk Byte) → X d → X' d)
      → ((d : Disk Byte) → K d → K' d)
      → Ends R X K out
      → Ends R' X' K' out
  Ends-imp R R' X X' K K' (returns, d) r x k h = r d h
  Ends-imp R R' X X' K K' (raises, d) r x k h = x d h
  Ends-imp R R' X X' K K' (killed, d) r x k h = k d h
