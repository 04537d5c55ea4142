-- ===== src/Sleigh/Element.antt =====
-- The ids of the elements of a sleigh file: `ElementId` of mizl_core/src/sleigh/consts.rs.
use mizl_h_public.Base.{ℕ, ◌≡◌, refl, Bool, List, [], ◌∷◌, Option, some, get_elem?, ◌==◌}

pub data ElementId : Type 0 where
  none : ElementId
  const_real : ElementId
  varnode_tpl : ElementId
  const_spaceid : ElementId
  const_handle : ElementId
  op_tpl : ElementId
  mask_word : ElementId
  pat_block : ElementId
  print : ElementId
  pair : ElementId
  context_pat : ElementId
  null : ElementId
  operand_exp : ElementId
  operand_sym : ElementId
  operand_sym_head : ElementId
  oper : ElementId
  decision : ElementId
  opprint : ElementId
  instruct_pat : ElementId
  combine_pat : ElementId
  constructor : ElementId
  construct_tpl : ElementId
  scope : ElementId
  varnode_sym : ElementId
  varnode_sym_head : ElementId
  userop : ElementId
  userop_head : ElementId
  tokenfield : ElementId
  var : ElementId
  contextfield : ElementId
  handle_tpl : ElementId
  const_relative : ElementId
  context_op : ElementId
  sleigh : ElementId
  spaces : ElementId
  sourcefiles : ElementId
  sourcefile : ElementId
  space : ElementId
  symbol_table : ElementId
  value_sym : ElementId
  value_sym_head : ElementId
  context_sym : ElementId
  context_sym_head : ElementId
  end_sym : ElementId
  end_sym_head : ElementId
  space_other : ElementId
  space_unique : ElementId
  and_exp : ElementId
  div_exp : ElementId
  lshift_exp : ElementId
  minus_exp : ElementId
  mult_exp : ElementId
  not_exp : ElementId
  or_exp : ElementId
  plus_exp : ElementId
  rshift_exp : ElementId
  sub_exp : ElementId
  xor_exp : ElementId
  intb : ElementId
  end_exp : ElementId
  next2_exp : ElementId
  start_exp : ElementId
  epsilon_sym : ElementId
  epsilon_sym_head : ElementId
  name_sym : ElementId
  name_sym_head : ElementId
  nametab : ElementId
  next2_sym : ElementId
  next2_sym_head : ElementId
  start_sym : ElementId
  start_sym_head : ElementId
  subtable_sym : ElementId
  subtable_sym_head : ElementId
  valuemap_sym : ElementId
  valuemap_sym_head : ElementId
  valuetab : ElementId
  varlist_sym : ElementId
  varlist_sym_head : ElementId
  or_pat : ElementId
  commit : ElementId
  const_start : ElementId
  const_next : ElementId
  const_next2 : ElementId
  const_curspace : ElementId
  const_curspace_size : ElementId
  const_flowref : ElementId
  const_flowref_size : ElementId
  const_flowdest : ElementId
  const_flowdest_size : ElementId

-- In the order of the source, which gives the discriminants.
abbrev pub elements : List ElementId
elements =
    none ∷ const_real ∷ varnode_tpl ∷ const_spaceid ∷ const_handle ∷ op_tpl ∷ mask_word ∷ pat_block
    ∷ print ∷ pair ∷ context_pat ∷ null ∷ operand_exp ∷ operand_sym ∷ operand_sym_head ∷ oper
    ∷ decision ∷ opprint ∷ instruct_pat ∷ combine_pat ∷ constructor ∷ construct_tpl ∷ scope
    ∷ varnode_sym ∷ varnode_sym_head ∷ userop ∷ userop_head ∷ tokenfield ∷ var ∷ contextfield
    ∷ handle_tpl ∷ const_relative ∷ context_op ∷ sleigh ∷ spaces ∷ sourcefiles ∷ sourcefile ∷ space
    ∷ symbol_table ∷ value_sym ∷ value_sym_head ∷ context_sym ∷ context_sym_head ∷ end_sym
    ∷ end_sym_head ∷ space_other ∷ space_unique ∷ and_exp ∷ div_exp ∷ lshift_exp ∷ minus_exp
    ∷ mult_exp ∷ not_exp ∷ or_exp ∷ plus_exp ∷ rshift_exp ∷ sub_exp ∷ xor_exp ∷ intb ∷ end_exp
    ∷ next2_exp ∷ start_exp ∷ epsilon_sym ∷ epsilon_sym_head ∷ name_sym ∷ name_sym_head ∷ nametab
    ∷ next2_sym ∷ next2_sym_head ∷ start_sym ∷ start_sym_head ∷ subtable_sym ∷ subtable_sym_head
    ∷ valuemap_sym ∷ valuemap_sym_head ∷ valuetab ∷ varlist_sym ∷ varlist_sym_head ∷ or_pat ∷ commit
    ∷ const_start ∷ const_next ∷ const_next2 ∷ const_curspace ∷ const_curspace_size ∷ const_flowref
    ∷ const_flowref_size ∷ const_flowdest ∷ const_flowdest_size ∷ []

abbrev pub discriminant : ElementId → ℕ
discriminant none = 0
discriminant const_real = 1
discriminant varnode_tpl = 2
discriminant const_spaceid = 3
discriminant const_handle = 4
discriminant op_tpl = 5
discriminant mask_word = 6
discriminant pat_block = 7
discriminant print = 8
discriminant pair = 9
discriminant context_pat = 10
discriminant null = 11
discriminant operand_exp = 12
discriminant operand_sym = 13
discriminant operand_sym_head = 14
discriminant oper = 15
discriminant decision = 16
discriminant opprint = 17
discriminant instruct_pat = 18
discriminant combine_pat = 19
discriminant constructor = 20
discriminant construct_tpl = 21
discriminant scope = 22
discriminant varnode_sym = 23
discriminant varnode_sym_head = 24
discriminant userop = 25
discriminant userop_head = 26
discriminant tokenfield = 27
discriminant var = 28
discriminant contextfield = 29
discriminant handle_tpl = 30
discriminant const_relative = 31
discriminant context_op = 32
discriminant sleigh = 33
discriminant spaces = 34
discriminant sourcefiles = 35
discriminant sourcefile = 36
discriminant space = 37
discriminant symbol_table = 38
discriminant value_sym = 39
discriminant value_sym_head = 40
discriminant context_sym = 41
discriminant context_sym_head = 42
discriminant end_sym = 43
discriminant end_sym_head = 44
discriminant space_other = 45
discriminant space_unique = 46
discriminant and_exp = 47
discriminant div_exp = 48
discriminant lshift_exp = 49
discriminant minus_exp = 50
discriminant mult_exp = 51
discriminant not_exp = 52
discriminant or_exp = 53
discriminant plus_exp = 54
discriminant rshift_exp = 55
discriminant sub_exp = 56
discriminant xor_exp = 57
discriminant intb = 58
discriminant end_exp = 59
discriminant next2_exp = 60
discriminant start_exp = 61
discriminant epsilon_sym = 62
discriminant epsilon_sym_head = 63
discriminant name_sym = 64
discriminant name_sym_head = 65
discriminant nametab = 66
discriminant next2_sym = 67
discriminant next2_sym_head = 68
discriminant start_sym = 69
discriminant start_sym_head = 70
discriminant subtable_sym = 71
discriminant subtable_sym_head = 72
discriminant valuemap_sym = 73
discriminant valuemap_sym_head = 74
discriminant valuetab = 75
discriminant varlist_sym = 76
discriminant varlist_sym_head = 77
discriminant or_pat = 78
discriminant commit = 79
discriminant const_start = 80
discriminant const_next = 81
discriminant const_next2 = 82
discriminant const_curspace = 83
discriminant const_curspace_size = 84
discriminant const_flowref = 85
discriminant const_flowref_size = 86
discriminant const_flowdest = 87
discriminant const_flowdest_size = 88

-- `FromPrimitive::from_u16`
abbrev pub from_u16 : ℕ → Option ElementId
from_u16 n = get_elem? elements n

abbrev pub same : ElementId → ElementId → Bool
same a b = discriminant a == discriminant b

pub from_u16-discriminant : (e : ElementId) → from_u16 (discriminant e) ≡ some e
from_u16-discriminant none = refl
from_u16-discriminant _ = refl
