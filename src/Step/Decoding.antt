-- ===== src/Step/Decoding.antt =====
-- `CPU::Decode`: a first match in the table, and why the order of the table does not matter.
use rremu.Base.{
  ℕ, ◌<◌, ◌^◌, ◌≡◌, ◌≢◌, ◌⊎◌, inl, inr, refl, sym, ap, ◌∙◌, Bool, true, not, ◌&&◌, ◌||◌, List, [],
  ◌∷◌, bit_and, ◌==◌, ==_iff, Bool-cases, ◌≡⟨◌⟩◌, ◌∎, arith,
}
use rremu.Bits.{bit_and_assoc, bit_and_comm, bit_and_mask}
use rremu.Action.{Outcome, done, trapped}
use rremu.Trap.{illegal_instruction}
use rremu.Cpu.{Cpu}
use rremu.Isa.{Instruction, instructions}
use rremu.Step.{decode_in, decode}

-- The instruction word has the fixed bits of the entry.
abbrev pub Matches : ℕ → Instruction → Type 0
Matches w i = bit_and w i.mask_field ≡ i.instruction_matcher

abbrev pub NoneMatches : ℕ → List Instruction → Type 0
NoneMatches w [] = Unit
NoneMatches w (i ∷ is) = (¬ Matches w i) × NoneMatches w is

-- An entry of the table.
abbrev pub IsEntry : Instruction → List Instruction → Type 0
IsEntry i [] = ⊥
IsEntry i (j ∷ is) = (i ≡ j) ⊎ IsEntry i is

-- What `Decode` promises of a table: an entry that matches, with nothing changed, or the trap for
-- an illegal instruction if none does.
abbrev pub Decodes : List Instruction → ℕ → Cpu → Outcome Cpu Instruction → Type 0
Decodes is w c r =
    ((i : Instruction) × (r ≡ done i c) × IsEntry i is × Matches w i)
    ⊎ (r ≡ trapped illegal_instruction c) × NoneMatches w is

decode_in-Decodes : (is : List Instruction) (w : ℕ) (c : Cpu) → Decodes is w c (decode_in is w c)
unfolding decode_in
decode_in-Decodes [] w c = inr (refl, tt)
decode_in-Decodes (i ∷ is) w c =
    elim (Bool-cases (bit_and w i.mask_field == i.instruction_matcher)) [
      | inl hit ↦ inl (i, rw hit, inl refl, (==_iff _ _).0 hit)
      | inr miss ↦ rw miss (elim (decode_in-Decodes is w c) [
        | inl (j, r, entry, m) ↦ inl (j, r, inr entry, m)
        | inr (r, none_matches) ↦ inr (r, ((λ m. cc ((==_iff _ _).1 m)), none_matches))
      ])
    ]

-- Decoding a word returns an entry of the table that matches the word and leaves the processor as
-- it was, or throws IllegalInstruction where no entry matches.
pub decode-Decodes : (w : ℕ) (c : Cpu) → Decodes instructions w c (decode w c)
unfolding decode
decode-Decodes w c = decode_in-Decodes instructions w c

-- Two entries ask for different values of a bit that both fix.
abbrev conflict : Instruction → Instruction → Bool
conflict i j =
    not (bit_and i.instruction_matcher j.mask_field == bit_and j.instruction_matcher i.mask_field)

conflict_excludes :
    (w : ℕ) (i j : Instruction) → conflict i j ≡ true → Matches w i → Matches w j → ⊥
conflict_excludes w i j h p q = cc ((==_iff _ _).1 agree)
  where
    agree : bit_and i.instruction_matcher j.mask_field ≡ bit_and j.instruction_matcher i.mask_field
    agree =
        bit_and i.instruction_matcher j.mask_field
        ≡⟨ ap (λ t. bit_and t j.mask_field) (sym p) ⟩ bit_and (bit_and w i.mask_field) j.mask_field
        ≡⟨ bit_and_assoc w i.mask_field j.mask_field ⟩ bit_and w (bit_and i.mask_field j.mask_field)
        ≡⟨ ap (bit_and w) (bit_and_comm i.mask_field j.mask_field) ⟩
          bit_and w (bit_and j.mask_field i.mask_field)
        ≡⟨ sym (bit_and_assoc w j.mask_field i.mask_field) ⟩
          bit_and (bit_and w j.mask_field) i.mask_field
        ≡⟨ ap (λ t. bit_and t i.mask_field) q ⟩ bit_and j.instruction_matcher i.mask_field ∎

-- FENCE is the entry for one word alone, which the entry of FENCE.I covers too.
abbrev pub fence_word : ℕ
fence_word = 0x0000000f

abbrev is_fence : Instruction → Bool
is_fence i = i.mask_field == 0xffffffff && i.instruction_matcher == fence_word

fence_excludes :
    (w : ℕ) (i : Instruction) → w < 2 ^ 32 → w ≢ fence_word → is_fence i ≡ true → ¬ Matches w i
fence_excludes w i small other h m = other (sym whole ∙ word)
  where
    word : bit_and w 0xffffffff ≡ fence_word
    word = ground arith

    whole : bit_and w 0xffffffff ≡ w
    whole = omega (arith, bit_and_mask 32 w)

-- Each entry differs from all that stand behind it, FENCE aside.
abbrev all_conflict : Instruction → List Instruction → Bool
all_conflict i [] = true
all_conflict i (j ∷ is) = (is_fence i || conflict i j) && all_conflict i is

unambiguous : List Instruction → Bool
unambiguous [] = true
unambiguous (i ∷ is) = all_conflict i is && unambiguous is

instructions-unambiguous : unambiguous instructions ≡ true
unfolding unambiguous instructions
instructions-unambiguous = refl

all_conflict_entry :
    (j i : Instruction) (is : List Instruction)
    → all_conflict j is ≡ true
    → IsEntry i is
    → (is_fence j || conflict j i) ≡ true
all_conflict_entry j i [] h e = absurd e
all_conflict_entry j i (k ∷ is) h (inl e) = rw e (ground arith)
all_conflict_entry j i (k ∷ is) h (inr e) = all_conflict_entry j i is (ground arith) e

module _ (w : ℕ) (i : Instruction) (small : w < 2 ^ 32) (other : w ≢ fence_word)
    (m : Matches w i) where
  rivals_miss :
      (j : Instruction) (is : List Instruction)
      → all_conflict j is ≡ true
      → IsEntry i is
      → ¬ Matches w j
  rivals_miss j is h e hit = elim (Bool-cases (is_fence j)) [
    | inl fenced ↦ fence_excludes w j small other fenced hit
    | inr unfenced ↦ conflict_excludes w j i (ground (arith, all_conflict_entry j i is h e)) hit m
  ]

  decode_in_unique :
      (is : List Instruction) (c : Cpu)
      → unambiguous is ≡ true
      → IsEntry i is
      → decode_in is w c ≡ done i c
  unfolding decode_in unambiguous
  decode_in_unique [] c h e = absurd e
  decode_in_unique (j ∷ is) c h (inl e) =
      let hit : Matches w j = rw e at m in rw ((==_iff _ _).1 hit, e)
  decode_in_unique (j ∷ is) c h (inr e) =
      elim (Bool-cases (bit_and w j.mask_field == j.instruction_matcher)) [
        | inl hit ↦ absurd (rivals_miss j is (ground arith) e ((==_iff _ _).0 hit))
        | inr miss ↦ rw miss (decode_in_unique is c (ground arith) e)
      ]

-- A 32-bit word other than FENCE's 0x0000000f that an entry of the table matches decodes to that
-- entry, wherever the entry stands in the table.
pub decode_unique :
    (w : ℕ) (i : Instruction) (c : Cpu)
    → w < 2 ^ 32
    → w ≢ fence_word
    → IsEntry i instructions
    → Matches w i
    → decode w c ≡ done i c
unfolding decode
decode_unique w i c small other e m =
    decode_in_unique w i small other m instructions c instructions-unambiguous e

-- A word that no entry matches.
pub decode_none :
    (w : ℕ) (c : Cpu) → NoneMatches w instructions → decode w c ≡ trapped illegal_instruction c
decode_none w c h = elim (decode-Decodes w c) [
  | inl (i, r, e, m) ↦ absurd (no_entry i instructions h e m)
  | inr (r, n) ↦ r
]
  where
    no_entry :
        (i : Instruction) (is : List Instruction) → NoneMatches w is → IsEntry i is → ¬ Matches w i
    no_entry i [] n e m = e
    no_entry i (j ∷ is) (n, ns) (inl e) m = n (rw e at m)
    no_entry i (j ∷ is) (n, ns) (inr e) m = no_entry i is ns e m
