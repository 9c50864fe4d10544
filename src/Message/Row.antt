-- ===== src/Message/Row.antt =====
-- The shape that most cases of `processMsg` share: with T_Set a value is compared with a variable,
-- stored where it differs, and the variable's file is marked; with T_Get the variable is shown.
use Prim.Native.String.{String}
use avserver.Base.{ℤ, Bool, true, false, ◌||◌, eqb_ℤ, if◌then◌else◌, Option, none, some, List, []}
use avserver.Message.Keys.{Key}
use avserver.Message.Vars.{File, Num, Txt}
use avserver.Message.Session.{
  Consts, Value, Call, Shown, Note, Session, put_num, put_txt, is_set, is_get, answer, make, mark,
  note, touch, num_inside, txt_inside, same_text,
}

pub record NumRow : Type 0 where
  pub var : Num
  pub file : File
  -- The value stored for an argument; `none` where the case breaks off.
  pub kept : ℤ → Option ℤ
  -- What the old value is compared with, for an argument and the value stored for it.
  pub tested : ℤ → ℤ → ℤ
  pub calls : ℤ → List Call
  -- Whether the file is marked.
  pub marks : Bool
  pub notes : Note
  pub answers : Key
  pub shown : ℤ
  -- Whether every type but T_Set shows the value.
  pub otherwise : Bool

pub record TxtRow : Type 0 where
  pub var : Txt
  pub file : File
  pub calls : String → List Call
  pub notes : Note
  pub answers : Key
  pub shown : String

pub data Row : Type 0 where
  num : NumRow → Row
  txt : TxtRow → Row
  -- Shown with T_Get, and nothing else.
  fixed : Key → Shown → Row
  -- The case breaks off at once.
  skip : Row

-- A case that stores any number as it is.
abbrev pub plain : Num → File → Key → Session → NumRow
plain x f k s = record {
  var = x;
  file = f;
  kept = some;
  tested = λ v v'. v';
  calls = λ v. [];
  marks = true;
  notes = Note.nothing;
  answers = k;
  shown = s.numbers x;
  otherwise = false;
}

-- The rows with nothing more to them.
abbrev pub num_row : Num → File → Key → Session → Row
num_row x f k s = Row.num (plain x f k s)

abbrev pub plain_txt : Txt → File → Key → Session → TxtRow
plain_txt x f k s = record {
  var = x;
  file = f;
  calls = λ v. [];
  notes = Note.nothing;
  answers = k;
  shown = s.texts x;
}

abbrev pub txt_row : Txt → File → Key → Session → Row
txt_row x f k s = Row.txt (plain_txt x f k s)

-- The new value is stored, the calls are made, and the file is marked.
unfoldable pub store_num : NumRow → ℤ → Session → Session
unfolding make note mark
store_num r v s =
    let s' : Session =
      note r.notes (make (r.calls v) (record s { numbers = put_num r.var v s.numbers })) in
    if r.marks then mark r.file s' else s'

unfoldable pub set_kept : NumRow → ℤ → Option ℤ → Session → Session
unfolding store_num
set_kept r v none s = s
set_kept r v (some v') s = if eqb_ℤ (s.numbers r.var) (r.tested v v') then s else store_num r v' s

unfoldable pub set_num : NumRow → ℤ → Session → Session
unfolding set_kept
set_num r v s = set_kept r v (r.kept v) s

unfoldable pub store_txt : TxtRow → String → Session → Session
unfolding make note mark
store_txt r v s =
    mark r.file (note r.notes (make (r.calls v) (record s { texts = put_txt r.var v s.texts })))

-- `strcmp` and `strcpy`, for a text that fits: `handle_row` raises the flag `wild` for any other one.
unfoldable pub set_txt : TxtRow → String → Session → Session
unfolding store_txt same_text
set_txt r v s = if same_text (s.texts r.var) v then s else store_txt r v s

unfoldable pub handle_row : Consts → Row → Value → Session → Session
unfolding set_num set_txt answer touch num_inside txt_inside
handle_row c (Row.num r) v s =
    if is_set c s
    then set_num r v.number (touch (num_inside c r.var) s)
    else if is_get c s || r.otherwise
    then answer r.answers (Shown.number r.shown) (touch (num_inside c r.var) s)
    else s
handle_row c (Row.txt r) v s =
    if is_set c s
    then set_txt r v.text (touch (txt_inside c r.var v.text) s)
    else if is_get c s
    then answer r.answers (Shown.text r.shown) s
    else s
handle_row c (Row.fixed k x) v s = if is_get c s then answer k x s else s
handle_row c Row.skip v s = s
