-- ===== src/Mss/Bytes.antt =====
-- Bytes of a packet after a write.
use callsignet.Base.{
  ℕ, zero, suc, ◌+◌, ◌/◌, ◌%◌, ◌<◌, ◌≡◌, ◌≢◌, refl, arith, List, [], ◌∷◌, length, set, length-set,
  ap, ◌∙◌,
}
use callsignet.Packet.{byte, word, put_word}

byte-set_self : (b : List ℕ) (i v : ℕ) → i < length b → byte (set b i v) i ≡ v
byte-set_self [] i v h = elim h [ ]
byte-set_self (x ∷ b) zero v h = refl
byte-set_self (x ∷ b) (suc i) v h = byte-set_self b i v (omega arith)

byte-set_ne : (b : List ℕ) (i j v : ℕ) → i ≢ j → byte (set b i v) j ≡ byte b j
byte-set_ne [] i j v h = refl
byte-set_ne (x ∷ b) zero zero v h = absurd (h refl)
byte-set_ne (x ∷ b) zero (suc j) v h = refl
byte-set_ne (x ∷ b) (suc i) zero v h = refl
byte-set_ne (x ∷ b) (suc i) (suc j) v h = byte-set_ne b i j v (λ e. h (ap suc e))

pub length-put_word : (b : List ℕ) (i v : ℕ) → length (put_word b i v) ≡ length b
unfolding put_word
length-put_word b i v =
    length-set (set b i (v / 256 % 256)) (i + 1) (v % 256) ∙ length-set b i (v / 256 % 256)

pub byte-put_word_ne :
    (b : List ℕ) (i v j : ℕ) → j ≢ i → j ≢ i + 1 → byte (put_word b i v) j ≡ byte b j
unfolding put_word
byte-put_word_ne b i v j h k =
    byte-set_ne (set b i (v / 256 % 256)) (i + 1) j (v % 256) (omega arith)
    ∙ byte-set_ne b i j (v / 256 % 256) (omega arith)

pub word-put_word :
    (b : List ℕ) (i v : ℕ) → i + 1 < length b → v < 65536 → word (put_word b i v) i ≡ v
unfolding put_word
word-put_word b i v h k =
    let c = set b i (v / 256 % 256) in
    omega (
      arith,
      byte-set_ne c (i + 1) i (v % 256) (omega arith),
      byte-set_self b i (v / 256 % 256) (omega arith),
      byte-set_self c (i + 1) (v % 256) (omega (arith, length-set b i (v / 256 % 256))),
    )
