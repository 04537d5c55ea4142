-- ===== src/Sleigh/Attribute.antt =====
-- The ids of the attributes of a sleigh file: `AttributeId` of mizl_core/src/sleigh/consts.rs.
use mizl_h_public.Base.{ℕ, ◌≡◌, refl, Bool, List, [], ◌∷◌, Option, some, get_elem?, ◌==◌}

pub data AttributeId : Type 0 where
  none : AttributeId
  content : AttributeId
  val : AttributeId
  id : AttributeId
  space : AttributeId
  s : AttributeId
  off : AttributeId
  code : AttributeId
  mask : AttributeId
  index : AttributeId
  nonzero : AttributeId
  piece : AttributeId
  name : AttributeId
  scope : AttributeId
  startbit : AttributeId
  size : AttributeId
  table : AttributeId
  ct : AttributeId
  minlen : AttributeId
  base : AttributeId
  number : AttributeId
  context : AttributeId
  parent : AttributeId
  subsym : AttributeId
  line : AttributeId
  source : AttributeId
  length : AttributeId
  first : AttributeId
  plus : AttributeId
  shift : AttributeId
  endbit : AttributeId
  signbit : AttributeId
  endbyte : AttributeId
  startbyte : AttributeId
  version : AttributeId
  bigendian : AttributeId
  align : AttributeId
  uniqbase : AttributeId
  maxdelay : AttributeId
  uniqmask : AttributeId
  numsections : AttributeId
  defaultspace : AttributeId
  delay : AttributeId
  wordsize : AttributeId
  physical : AttributeId
  scopesize : AttributeId
  symbolsize : AttributeId
  varnode : AttributeId
  low : AttributeId
  high : AttributeId
  flow : AttributeId
  contain : AttributeId
  i : AttributeId
  numct : AttributeId
  section : AttributeId
  labels : AttributeId

-- In the order of the source, which gives the discriminants.
abbrev pub attributes : List AttributeId
attributes =
    none ∷ content ∷ val ∷ id ∷ space ∷ s ∷ off ∷ code ∷ mask ∷ index ∷ nonzero ∷ piece ∷ name
    ∷ scope ∷ startbit ∷ size ∷ table ∷ ct ∷ minlen ∷ base ∷ number ∷ context ∷ parent ∷ subsym
    ∷ line ∷ source ∷ length ∷ first ∷ plus ∷ shift ∷ endbit ∷ signbit ∷ endbyte ∷ startbyte
    ∷ version ∷ bigendian ∷ align ∷ uniqbase ∷ maxdelay ∷ uniqmask ∷ numsections ∷ defaultspace
    ∷ delay ∷ wordsize ∷ physical ∷ scopesize ∷ symbolsize ∷ varnode ∷ low ∷ high ∷ flow ∷ contain
    ∷ i ∷ numct ∷ section ∷ labels ∷ []

abbrev pub discriminant : AttributeId → ℕ
discriminant none = 0
discriminant content = 1
discriminant val = 2
discriminant id = 3
discriminant space = 4
discriminant s = 5
discriminant off = 6
discriminant code = 7
discriminant mask = 8
discriminant index = 9
discriminant nonzero = 10
discriminant piece = 11
discriminant name = 12
discriminant scope = 13
discriminant startbit = 14
discriminant size = 15
discriminant table = 16
discriminant ct = 17
discriminant minlen = 18
discriminant base = 19
discriminant number = 20
discriminant context = 21
discriminant parent = 22
discriminant subsym = 23
discriminant line = 24
discriminant source = 25
discriminant length = 26
discriminant first = 27
discriminant plus = 28
discriminant shift = 29
discriminant endbit = 30
discriminant signbit = 31
discriminant endbyte = 32
discriminant startbyte = 33
discriminant version = 34
discriminant bigendian = 35
discriminant align = 36
discriminant uniqbase = 37
discriminant maxdelay = 38
discriminant uniqmask = 39
discriminant numsections = 40
discriminant defaultspace = 41
discriminant delay = 42
discriminant wordsize = 43
discriminant physical = 44
discriminant scopesize = 45
discriminant symbolsize = 46
discriminant varnode = 47
discriminant low = 48
discriminant high = 49
discriminant flow = 50
discriminant contain = 51
discriminant i = 52
discriminant numct = 53
discriminant section = 54
discriminant labels = 55

-- `FromPrimitive::from_u16`
abbrev pub from_u16 : ℕ → Option AttributeId
from_u16 n = get_elem? attributes n

abbrev pub same : AttributeId → AttributeId → Bool
same a b = discriminant a == discriminant b

pub from_u16-discriminant : (a : AttributeId) → from_u16 (discriminant a) ≡ some a
from_u16-discriminant none = refl
from_u16-discriminant _ = refl
