-- ===== src/PathCompiler/Key.antt =====
-- `key`, `KEY` and `COMPILE` of path_compiler.hh. The flags of an enumeration are a record of its
-- bits: `|` sets a field, and `has_flag` reads one.
use http_router.Base.{ℕ, Bool, true, false, ◌||◌, Bytes, []}

-- `std::variant<size_t, std::string>`
pub data KeyName : Type 0 where
  index : ℕ → KeyName
  text : Bytes → KeyName

pub record Key : Type 0 where
  pub is_string : Bool
  pub asterisk : Bool
  pub optional : Bool
  pub repeat : Bool
  pub partial : Bool
  pub value : KeyName
  pub prefix : Bytes
  pub delimiter : Bytes
  pub pattern : Bytes

pub record Compile : Type 0 where
  pub strict : Bool
  pub end : Bool
  pub sensitive : Bool
  pub optimize : Bool
  pub take_rest : Bool

-- `COMPILE::DEFAULT`
abbrev pub default : Compile
default = record {
  strict = false;
  end = true;
  sensitive = true;
  optimize = true;
  take_rest = false;
}

abbrev pub as_string : Bytes → Key
as_string value = record {
  is_string = true;
  asterisk = false;
  optional = false;
  repeat = false;
  partial = false;
  value = text value;
  prefix = [];
  delimiter = [];
  pattern = [];
}

-- The two overloads of `key::make`
abbrev pub make_key : KeyName → Bytes → Bytes → Bytes → Key
make_key value prefix delimiter pattern = record {
  is_string = false;
  asterisk = false;
  optional = false;
  repeat = false;
  partial = false;
  value = value;
  prefix = prefix;
  delimiter = delimiter;
  pattern = pattern;
}

abbrev pub set_flags : Bool → Bool → Bool → Bool → Key → Key
set_flags asterisk optional repeat partial k = record k {
  asterisk = k.asterisk || asterisk;
  optional = k.optional || optional;
  repeat = k.repeat || repeat;
  partial = k.partial || partial;
}
