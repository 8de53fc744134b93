-- ===== src/Extbmp/Change.antt =====
-- Setting or clearing the bit of one address: which addresses are then in the set.
use larceny.Base.{ℕ, ◌%◌, ◌^◌, ◌≤◌, ◌<◌, ◌≡◌, not, ◌&&◌, ◌||◌, arith, ◌==◌}
use larceny.Bits.{set_bit, clear_bit, test_bit_lem, bit-set_bit, bit-clear_bit, bit_and_31}
use larceny.Extbmp.{Leaf}
use larceny.Extbmp.Ops.{bit_idx, word_idx, bit_in_word, entry_bit, change_bit}
use larceny.Extbmp.Index.{minus_lem}

-- an address that a leaf at `first` covers
abbrev pub Within : ℕ → ℕ → Type 0
Within x first = (first ≤ x) × (x < 2 ^ 32) × (x % 8 ≡ 0)

-- Two addresses of a leaf have the same bit exactly if they are equal.
same_bit :
    (x w first : ℕ)
    → Within x first
    → Within w first
    → ((word_idx x first == word_idx w first) && (bit_in_word x first == bit_in_word w first))
      ≡ (x == w)
same_bit x w first p q = ground (
  arith,
  minus_lem x first p.0 p.1,
  minus_lem w first q.0 q.1,
  bit_and_31 (bit_idx x first),
  bit_and_31 (bit_idx w first),
)

bit_below : (w first : ℕ) → bit_in_word w first < 32
bit_below w first = omega (arith, bit_and_31 (bit_idx w first))

pub entry-set_bit :
    (l : Leaf) (x w first : ℕ)
    → Within x first
    → Within w first
    → entry_bit (change_bit set_bit w first l) x first ≡ (entry_bit l x first || (x == w))
entry-set_bit l x w first p q = ground (
  arith,
  same_bit x w first p q,
  test_bit_lem (l.bitmap (word_idx x first)) (bit_in_word x first),
  test_bit_lem (set_bit (l.bitmap (word_idx w first)) (bit_in_word w first)) (bit_in_word x first),
  bit-set_bit (l.bitmap (word_idx w first)) (bit_in_word w first) (bit_in_word x first),
)

pub entry-clear_bit :
    (l : Leaf) (x w first : ℕ)
    → Within x first
    → Within w first
    → entry_bit (change_bit clear_bit w first l) x first ≡ (entry_bit l x first && not (x == w))
entry-clear_bit l x w first p q = ground (
  arith,
  same_bit x w first p q,
  test_bit_lem (l.bitmap (word_idx x first)) (bit_in_word x first),
  test_bit_lem (clear_bit (l.bitmap (word_idx w first)) (bit_in_word w first))
      (bit_in_word x first),
  bit-clear_bit (l.bitmap (word_idx w first)) (bit_in_word w first) (bit_in_word x first)
      (bit_below w first) (bit_below x first),
)
