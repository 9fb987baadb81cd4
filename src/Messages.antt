-- ===== src/Messages.antt =====
-- i18n/messages.ts: messages kept as keys with values, and translated when they are shown.
use gothrough.Base.{ℕ, List, [], ◌∷◌, Text}

-- `MessageDescriptor` with its `values`, a record from names to texts, numbers or messages.
mutual
  pub data Descriptor : Type 0 where
    describe : Text → Values → Descriptor

  pub data Values : Type 0 where
    end : Values
    entry : Text → Value → Values → Values

  pub data Value : Type 0 where
    text : Text → Value
    number : ℕ → Value
    nested : Descriptor → Value

-- `Message = string | MessageDescriptor`.
pub data Message : Type 0 where
  plain : Text → Message
  descriptor : Descriptor → Message

-- The values that the dictionary's `t` receives: nothing is nested any more.
pub data Leaf : Type 0 where
  text : Text → Leaf
  number : ℕ → Leaf

abbrev pub message : Text → Values → Message
message key values = descriptor (describe key values)

-- `value` as an interpolated message, as in `{ error: failure }`.
abbrev pub as_value : Message → Value
as_value (plain s) = Value.text s
as_value (descriptor d) = nested d

-- `t` of the dictionary: the translation library's, given the key and flat values.
module _ (t : Text → List (Text × Leaf) → Text) where
  unfoldable mutual
    pub translate_descriptor : Descriptor → Text
    translate_descriptor (describe key values) = t key (translate_values values)

    pub translate_values : Values → List (Text × Leaf)
    translate_values end = []
    translate_values (entry name value rest) = (name, translate_value value) ∷ translate_values rest

    pub translate_value : Value → Leaf
    translate_value (text s) = Leaf.text s
    translate_value (number n) = Leaf.number n
    translate_value (nested d) = Leaf.text (translate_descriptor d)

  unfoldable pub translate_message : Message → Text
  translate_message (plain s) = s
  translate_message (descriptor d) = translate_descriptor d
