-- ===== src/Lexing/Token.antt =====
-- compiler/kyna_lexing/include/kyna/lexing/token.hpp and src/types/token_kind_description.cpp: the
-- kinds of tokens, their descriptions, and tokens. A kind whose name is a word of this language
-- carries `_keyword`.
use kyna.Base.{ℕ, List, String}
use kyna.Diagnostics.{SourceSpan}

pub data TokenKind : Type 0 where
  end invalid identifier int float string char : TokenKind
  var const fn return if_keyword else_keyword while : TokenKind
  loop break continue switch case await match : TokenKind
  try catch finally throw import export as_keyword : TokenKind
  class extends implements init new self super : TokenKind
  public private protected static override final abstract : TokenKind
  intf trait from default type_keyword true_keyword false_keyword : TokenKind
  null int_type float_type num_type str_type char_type bool_type : TokenKind
  null_type void_type any_type plus minus star slash : TokenKind
  percent bang equal equal_equal bang_equal less less_equal : TokenKind
  greater greater_equal and_and or_or pipe question dot : TokenKind
  comma colon semicolon left_paren right_paren left_brace right_brace : TokenKind
  left_bracket right_bracket arrow fat_arrow : TokenKind

pub record Token : Type 0 where
  pub kind : TokenKind
  pub lexeme : List ℕ
  pub location : SourceSpan

pub TokenKind-discrete : Discrete TokenKind
TokenKind-discrete = hlevel

-- `tokenName`.
unfoldable pub token_name : TokenKind → String
token_name end = "end of file"
token_name invalid = "invalid token"
token_name identifier = "identifier"
token_name int = "integer"
token_name float = "float"
token_name string = "string"
token_name char = "character"
token_name var = "var"
token_name const = "const"
token_name fn = "fn"
token_name return = "return"
token_name if_keyword = "if"
token_name else_keyword = "else"
token_name while = "while"
token_name loop = "loop"
token_name break = "break"
token_name continue = "continue"
token_name switch = "switch"
token_name case = "case"
token_name await = "await"
token_name match = "match"
token_name try = "try"
token_name catch = "catch"
token_name finally = "finally"
token_name throw = "throw"
token_name import = "import"
token_name export = "export"
token_name as_keyword = "as"
token_name class = "class"
token_name extends = "extends"
token_name implements = "implements"
token_name init = "init"
token_name new = "new"
token_name self = "self"
token_name super = "super"
token_name public = "public"
token_name private = "private"
token_name protected = "protected"
token_name static = "static"
token_name override = "override"
token_name final = "final"
token_name abstract = "abstract"
token_name intf = "intf"
token_name trait = "trait"
token_name from = "from"
token_name default = "default"
token_name type_keyword = "type"
token_name true_keyword = "true"
token_name false_keyword = "false"
token_name null = "null"
token_name int_type = "int type"
token_name float_type = "float type"
token_name num_type = "num type"
token_name str_type = "str type"
token_name char_type = "char type"
token_name bool_type = "bool type"
token_name null_type = "null type"
token_name void_type = "void type"
token_name any_type = "any type"
token_name plus = "'+'"
token_name minus = "'-'"
token_name star = "'*'"
token_name slash = "'/'"
token_name percent = "'%'"
token_name bang = "'!'"
token_name equal = "'='"
token_name equal_equal = "'=='"
token_name bang_equal = "'!='"
token_name less = "'<'"
token_name less_equal = "'<='"
token_name greater = "'>'"
token_name greater_equal = "'>='"
token_name and_and = "'&&'"
token_name or_or = "'||'"
token_name pipe = "'|'"
token_name question = "'?'"
token_name dot = "'.'"
token_name comma = "','"
token_name colon = "':'"
token_name semicolon = "';'"
token_name left_paren = "'('"
token_name right_paren = "')'"
token_name left_brace = "'{'"
token_name right_brace = "'}'"
token_name left_bracket = "'['"
token_name right_bracket = "']'"
token_name arrow = "'->'"
token_name fat_arrow = "'=>'"
