-- ===== src/Sql/JsonWriter/Tree.antt =====
-- Whole values written through `JsonWriter`, against the compact text of a value.
use duckdb_flock.Base.{
  ℕ, ◌≡◌, refl, sym, ap, ◌∙◌, Bool, true, false, List, [], ◌∷◌, ◌++◌, append_assoc, append-nil,
  Bytes, codes, arith, if◌then◌else◌,
}
use duckdb_flock.Sql.JsonWriter.{
  JsonWriter, Frame, array, object_key, reset, take_text, begin_object, end_object, begin_array,
  end_array, key, null_value, bool_value, string_value, raw, write_escaped_string, before_value,
  append, comma_unless_first, before_key, close_frame, open_frame,
}

-- A JSON value; a number is the text of its token.
mutual
  pub data Json : Type 0 where
    null : Json
    bool : Bool → Json
    string : Bytes → Json
    number : Bytes → Json
    array_of : Elements → Json
    object_of : Members → Json

  pub data Elements : Type 0 where
    no_element : Elements
    element : Json → Elements → Elements

  pub data Members : Type 0 where
    no_member : Members
    member : Bytes → Json → Members → Members

-- How a caller writes a value: a container is begun, filled and ended.
unfoldable mutual
  pub write : Json → JsonWriter → JsonWriter
  write null w = null_value w
  write (bool b) w = bool_value b w
  write (string s) w = string_value s w
  write (number t) w = raw t w
  write (array_of vs) w = end_array (write_elements vs (begin_array w))
  write (object_of ms) w = end_object (write_members ms (begin_object w))

  pub write_elements : Elements → JsonWriter → JsonWriter
  write_elements no_element w = w
  write_elements (element v vs) w = write_elements vs (write v w)

  pub write_members : Members → JsonWriter → JsonWriter
  write_members no_member w = w
  write_members (member name v ms) w = write_members ms (write v (key name w))

-- The compact text of a value; the flag says whether an element or a member is the first.
abbrev pub separator : Bool → Bytes
separator true = []
separator false = b',' ∷ []

unfoldable mutual
  pub text : Json → Bytes
  text null = codes "null"
  text (bool b) = if b then codes "true" else codes "false"
  text (string s) = write_escaped_string s
  text (number t) = t
  text (array_of vs) = b'[' ∷ (elements_text true vs ++ (b']' ∷ []))
  text (object_of ms) = b'{' ∷ (members_text true ms ++ (b'}' ∷ []))

  pub elements_text : Bool → Elements → Bytes
  elements_text first no_element = []
  elements_text first (element v vs) = separator first ++ (text v ++ elements_text false vs)

  pub members_text : Bool → Members → Bytes
  members_text first no_member = []
  members_text first (member name v ms) =
      separator first ++ (write_escaped_string name ++ (b':' ∷ (text v ++ members_text false ms)))

is_container : Json → Bool
is_container (array_of _) = true
is_container (object_of _) = true
is_container _ = false

abbrev at : Bytes → List Frame → Bool → JsonWriter
at b fs first = record { buf = b; frames = fs; first_in_frame = first }

flag : Json → Bool → Bool
flag v first = if is_container v then false else first

flag-false : (v : Json) → flag v false ≡ false
unfolding flag
flag-false v = ground arith

-- The writer after a value: `before_value`, the text, and the flag that a container leaves.
after : Json → JsonWriter → JsonWriter
after v w = let u = before_value w in at (u.buf ++ text v) u.frames (flag v u.first_in_frame)

flag_elements : Bool → Elements → Bool
flag_elements first no_element = first
flag_elements first (element _ _) = false

flag_members : Bool → Members → Bool
flag_members first no_member = first
flag_members first (member _ _ _) = false

flag_elements-false : (vs : Elements) → flag_elements false vs ≡ false
unfolding flag_elements
flag_elements-false no_element = refl
flag_elements-false (element _ _) = refl

flag_members-false : (ms : Members) → flag_members false ms ≡ false
unfolding flag_members
flag_members-false no_member = refl
flag_members-false (member _ _ _) = refl

at-eq : (b c : Bytes) (fs : List Frame) (f g : Bool) → b ≡ c → f ≡ g → at b fs f ≡ at c fs g
at-eq b c fs f g e h = cc

in_array :
    (v : Json) (b : Bytes) (fs : List Frame) (first : Bool)
    → after v (at b (array ∷ fs) first) ≡ at (b ++ (separator first ++ text v)) (array ∷ fs) false
unfolding after before_value append comma_unless_first
in_array v b fs true = at-eq _ _ _ _ _ refl (flag-false v)
in_array v b fs false = at-eq _ _ _ _ _ (append_assoc b (b',' ∷ []) (text v)) (flag-false v)

colon : (b name t : Bytes) → ((b ++ name) ++ (b':' ∷ [])) ++ t ≡ b ++ (name ++ (b':' ∷ t))
colon b name t = append_assoc (b ++ name) (b':' ∷ []) t ∙ append_assoc b name (b':' ∷ t)

in_member :
    (name : Bytes) (v : Json) (b : Bytes) (fs : List Frame) (first : Bool)
    → after v (key name (at b (object_key ∷ fs) first))
      ≡ at
          (b ++ (separator first ++ (write_escaped_string name ++ (b':' ∷ text v))))
          (object_key ∷ fs)
          false
unfolding after before_value key append before_key comma_unless_first
in_member name v b fs true =
    at-eq _ _ _ _ _ (colon b (write_escaped_string name) (text v)) (flag-false v)
in_member name v b fs false =
    at-eq _ _ _ _ _
      (colon (b ++ b',' ∷ []) (write_escaped_string name) (text v)
        ∙ append_assoc b (b',' ∷ []) (write_escaped_string name ++ b':' ∷ text v))
      (flag-false v)

closed :
    (b : Bytes) (start shut : ℕ) (inner : Bytes)
    → ((b ++ (start ∷ [])) ++ inner) ++ (shut ∷ []) ≡ b ++ (start ∷ (inner ++ (shut ∷ [])))
closed b start shut inner =
    append_assoc (b ++ start ∷ []) inner (shut ∷ [])
    ∙ append_assoc b (start ∷ []) (inner ++ shut ∷ [])

close_array :
    (vs : Elements) (w : JsonWriter) (first : Bool)
    → end_array (
        at
          (((before_value w).buf ++ b'[' ∷ []) ++ elements_text true vs)
          (array ∷ (before_value w).frames)
          first)
      ≡ after (array_of vs) w
unfolding after end_array close_frame append text flag is_container
close_array vs w first =
    at-eq _ _ _ _ _ (closed (before_value w).buf b'[' b']' (elements_text true vs)) refl

close_object :
    (ms : Members) (w : JsonWriter) (first : Bool)
    → end_object (
        at
          (((before_value w).buf ++ b'{' ∷ []) ++ members_text true ms)
          (object_key ∷ (before_value w).frames)
          first)
      ≡ after (object_of ms) w
unfolding after end_object close_frame append text flag is_container
close_object ms w first =
    at-eq _ _ _ _ _ (closed (before_value w).buf b'{' b'}' (members_text true ms)) refl

mutual
  unfolding write write_elements write_members after flag raw null_value bool_value string_value
      append text is_container elements_text members_text flag_elements flag_members begin_array
      begin_object open_frame

  write-after : (v : Json) (w : JsonWriter) → write v w ≡ after v w
  write-after null w = refl
  write-after (bool b) w = refl
  write-after (string s) w = refl
  write-after (number t) w = refl
  write-after (array_of vs) w =
      ap end_array
        (write_elements-text vs ((before_value w).buf ++ b'[' ∷ []) (before_value w).frames true)
      ∙ close_array vs w (flag_elements true vs)
  write-after (object_of ms) w =
      ap end_object
        (write_members-text ms ((before_value w).buf ++ b'{' ∷ []) (before_value w).frames true)
      ∙ close_object ms w (flag_members true ms)

  write_elements-text :
      (vs : Elements) (b : Bytes) (fs : List Frame) (first : Bool)
      → write_elements vs (at b (array ∷ fs) first)
        ≡ at (b ++ elements_text first vs) (array ∷ fs) (flag_elements first vs)
  write_elements-text no_element b fs first = at-eq _ _ _ _ _ (sym (append-nil b)) refl
  write_elements-text (element v vs) b fs first =
      let here : Bytes = separator first ++ text v in
      ap (write_elements vs) (write-after v (at b (array ∷ fs) first) ∙ in_array v b fs first)
      ∙ write_elements-text vs (b ++ here) fs false
      ∙ at-eq _ _ _ _ _
          (append_assoc b here (elements_text false vs)
            ∙ ap (λ t. b ++ t) (append_assoc (separator first) (text v) (elements_text false vs)))
          (flag_elements-false vs)

  write_members-text :
      (ms : Members) (b : Bytes) (fs : List Frame) (first : Bool)
      → write_members ms (at b (object_key ∷ fs) first)
        ≡ at (b ++ members_text first ms) (object_key ∷ fs) (flag_members first ms)
  write_members-text no_member b fs first = at-eq _ _ _ _ _ (sym (append-nil b)) refl
  write_members-text (member name v ms) b fs first =
      let named : Bytes = write_escaped_string name in
      let here : Bytes = separator first ++ (named ++ (b':' ∷ text v)) in
      ap (write_members ms)
        (write-after v (key name (at b (object_key ∷ fs) first)) ∙ in_member name v b fs first)
      ∙ write_members-text ms (b ++ here) fs false
      ∙ at-eq _ _ _ _ _
          (append_assoc b here (members_text false ms)
            ∙ ap (λ t. b ++ t)
                (append_assoc (separator first) (named ++ b':' ∷ text v) (members_text false ms)
                  ∙ ap (λ t. separator first ++ t)
                      (append_assoc named (b':' ∷ text v) (members_text false ms))))
          (flag_members-false ms)

-- A value written to a fresh writer, whatever it nests, gives its compact text: commas between the
-- elements and members only, and every container closed. `take_text` then leaves a fresh writer.
pub take_text-write : (v : Json) → take_text (write v reset) ≡ (text v, reset)
unfolding take_text reset text after before_value
take_text-write v = ap (λ w. (w.buf, reset)) (write-after v reset)
