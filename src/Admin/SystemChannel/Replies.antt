-- ===== src/Admin/SystemChannel/Replies.antt =====
-- The loop of `genesisBlock` over the replies, against a description of its result.
use fabric_network_builder.Prelude.{
  List, [], ◌∷◌, Bool, Option, none, some, ◌≡◌, refl, ap, ◌∙◌, Bytes, ℤ, Result,
}
use fabric_network_builder.Admin.Exec.{AdminError}
use fabric_network_builder.Admin.Service.{Delivered, a_block, a_status, another, StreamEnd}
use fabric_network_builder.Admin.SystemChannel.{at_end, at_status, receive}

module _ {Block : Type 0} where
  -- The first status of the replies, and the last block before it, or before the end.
  abbrev pub first_status : List (Delivered Block) → Option ℤ
  first_status [] = none
  first_status (a_status status ∷ replies) = some status
  first_status (a_block b ∷ replies) = first_status replies
  first_status (another ∷ replies) = first_status replies

  abbrev pub or_later : Option Block → Option Block → Option Block
  or_later block none = block
  or_later block (some b) = some b

  abbrev pub last_block : List (Delivered Block) → Option Block
  last_block [] = none
  last_block (a_status status ∷ replies) = none
  last_block (a_block b ∷ replies) = or_later (some b) (last_block replies)
  last_block (another ∷ replies) = last_block replies

  abbrev pub verdict :
      Bytes → Bytes → Bool → Option Block → StreamEnd → Option ℤ → Result AdminError Block
  verdict host channel wait block end none = at_end block end
  verdict host channel wait block end (some status) = at_status host channel wait block status

  or_later_assoc : (a b c : Option Block) → or_later (or_later a b) c ≡ or_later a (or_later b c)
  or_later_assoc a b none = refl
  or_later_assoc a b (some x) = refl

  receive-from :
      (host channel : Bytes) (wait : Bool) (block : Option Block) (replies : List (Delivered Block))
      (end : StreamEnd)
      → receive host channel wait block replies end
        ≡ verdict host channel wait (or_later block (last_block replies)) end (first_status replies)
  unfolding receive
  receive-from host channel wait block [] end = refl
  receive-from host channel wait block (a_status status ∷ replies) end = refl
  receive-from host channel wait block (another ∷ replies) end =
      receive-from host channel wait block replies end
  receive-from host channel wait block (a_block b ∷ replies) end =
      receive-from host channel wait (some b) replies end
      ∙ ap (λ c. verdict host channel wait c end (first_status replies))
          (or_later_assoc block (some b) (last_block replies))

-- The loop over the replies gives what the first status makes of the last block before it, and
-- without a status what the end of the stream makes of the last block.
pub receive-eq-verdict :
    {Block : Type 0} (host channel : Bytes) (wait : Bool) (replies : List (Delivered Block))
    (end : StreamEnd)
    → receive host channel wait none replies end
      ≡ verdict host channel wait (last_block replies) end (first_status replies)
receive-eq-verdict host channel wait replies end =
    receive-from host channel wait none replies end
    ∙ ap (λ c. verdict host channel wait c end (first_status replies))
        (none_or (last_block replies))
  where
    none_or : {Block : Type 0} (c : Option Block) → or_later none c ≡ c
    none_or none = refl
    none_or (some b) = refl
