-- ===== src/Lexing/Keyword.antt =====
-- compiler/kyna_lexing/src/validators/keyword_catalog.cpp: the keyword table.
use kyna.Base.{ℕ, List, [], ◌∷◌, codes, bytes_eq, if◌then◌else◌}
use kyna.Lexing.Token.{TokenKind}

-- The entries of the table, in the order of the source; no word stands in two of them.
abbrev pub keywords : List (List ℕ × TokenKind)
keywords =
    (codes "var", TokenKind.var)
    ∷ (codes "const", TokenKind.const)
    ∷ (codes "fn", TokenKind.fn)
    ∷ (codes "let", TokenKind.var)
    ∷ (codes "set", TokenKind.const)
    ∷ (codes "func", TokenKind.fn)
    ∷ (codes "return", TokenKind.return)
    ∷ (codes "if", TokenKind.if_keyword)
    ∷ (codes "else", TokenKind.else_keyword)
    ∷ (codes "while", TokenKind.while)
    ∷ (codes "loop", TokenKind.loop)
    ∷ (codes "break", TokenKind.break)
    ∷ (codes "continue", TokenKind.continue)
    ∷ (codes "switch", TokenKind.switch)
    ∷ (codes "case", TokenKind.case)
    ∷ (codes "await", TokenKind.await)
    ∷ (codes "match", TokenKind.match)
    ∷ (codes "try", TokenKind.try)
    ∷ (codes "catch", TokenKind.catch)
    ∷ (codes "finally", TokenKind.finally)
    ∷ (codes "throw", TokenKind.throw)
    ∷ (codes "import", TokenKind.import)
    ∷ (codes "export", TokenKind.export)
    ∷ (codes "as", TokenKind.as_keyword)
    ∷ (codes "class", TokenKind.class)
    ∷ (codes "extends", TokenKind.extends)
    ∷ (codes "implements", TokenKind.implements)
    ∷ (codes "init", TokenKind.init)
    ∷ (codes "new", TokenKind.new)
    ∷ (codes "self", TokenKind.self)
    ∷ (codes "super", TokenKind.super)
    ∷ (codes "public", TokenKind.public)
    ∷ (codes "private", TokenKind.private)
    ∷ (codes "protected", TokenKind.protected)
    ∷ (codes "static", TokenKind.static)
    ∷ (codes "override", TokenKind.override)
    ∷ (codes "final", TokenKind.final)
    ∷ (codes "abstract", TokenKind.abstract)
    ∷ (codes "intf", TokenKind.intf)
    ∷ (codes "trait", TokenKind.trait)
    ∷ (codes "from", TokenKind.from)
    ∷ (codes "default", TokenKind.default)
    ∷ (codes "type", TokenKind.type_keyword)
    ∷ (codes "true", TokenKind.true_keyword)
    ∷ (codes "false", TokenKind.false_keyword)
    ∷ (codes "null", TokenKind.null)
    ∷ (codes "int", TokenKind.int_type)
    ∷ (codes "float", TokenKind.float_type)
    ∷ (codes "num", TokenKind.num_type)
    ∷ (codes "str", TokenKind.str_type)
    ∷ (codes "char", TokenKind.char_type)
    ∷ (codes "bool", TokenKind.bool_type)
    ∷ (codes "void", TokenKind.void_type)
    ∷ (codes "any", TokenKind.any_type)
    ∷ []

-- `keywords.find(word)`, with `Identifier` for a word that is not there.
unfoldable pub find_kind : List (List ℕ × TokenKind) → List ℕ → TokenKind
find_kind [] word = TokenKind.identifier
find_kind ((key, kind) ∷ table) word = if bytes_eq key word then kind else find_kind table word

-- `keywordKind`.
unfoldable pub keyword_kind : List ℕ → TokenKind
keyword_kind word = find_kind keywords word
