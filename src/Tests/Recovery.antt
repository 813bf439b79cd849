-- ===== src/Tests/Recovery.antt =====
-- The error-recovering parser on a small document.
use surql_parser.Prelude.{
  ◌≡◌, ◌⊎◌, true, List, [], ◌∷◌, refl, arith, codes, Text, length, drop, is_whitespace,
}
use surql_parser.Token.{Token, TokenKind, Delim, IsOrdered}
use surql_parser.Recovery.{is_blank, split_into_chunks, byte_offset_to_line_col, move}
use surql_parser.Recovery.Chunks.{InOrder, split_into_chunks-InOrder}
use surql_parser.Recovery.Coverage.{InChunk, InSeparator, split_into_chunks_covers}
use surql_parser.Recovery.Moved.{diagnostic_at, chunk, IsAscii, move-diagnostic_at}

abbrev document : Text
document = codes "a;{b;}\n;c\nd"

-- The tokens of the document, whatever the text.
abbrev document_tokens : Text → List Token
document_tokens source =
    record { kind = TokenKind.other; offset = 0; len = 1 }
    ∷ record { kind = TokenKind.semi_colon; offset = 1; len = 1 }
    ∷ record { kind = TokenKind.open_delim Delim.brace; offset = 2; len = 1 }
    ∷ record { kind = TokenKind.other; offset = 3; len = 1 }
    ∷ record { kind = TokenKind.semi_colon; offset = 4; len = 1 }
    ∷ record { kind = TokenKind.close_delim Delim.brace; offset = 5; len = 1 }
    ∷ record { kind = TokenKind.semi_colon; offset = 7; len = 1 }
    ∷ record { kind = TokenKind.other; offset = 8; len = 1 }
    ∷ record { kind = TokenKind.other; offset = 10; len = 1 }
    ∷ []

document_chunks :
    split_into_chunks document_tokens document
    ≡ record { start = 0; end = 1 }
      ∷ record { start = 2; end = 7 }
      ∷ record { start = 8; end = 11 }
      ∷ []
unfolding split_into_chunks is_whitespace
document_chunks = refl

document-IsOrdered : IsOrdered 0 (length document) (document_tokens document)
document-IsOrdered = ground arith

split_into_chunks-InOrder_example :
    InOrder 0 (length document) (split_into_chunks document_tokens document)
split_into_chunks-InOrder_example =
    split_into_chunks-InOrder document_tokens document document-IsOrdered

split_into_chunks_covers_example :
    InChunk 7 (split_into_chunks document_tokens document)
    ⊎ InSeparator 7 0 (document_tokens document)
    ⊎ (is_blank (drop 7 document) ≡ true)
split_into_chunks_covers_example = split_into_chunks_covers document_tokens document 7 (omega arith)

document-IsAscii : IsAscii document
document-IsAscii = ground arith

move-diagnostic_at_example :
    move
      (byte_offset_to_line_col document 2).0
      (byte_offset_to_line_col document 2).1
      (diagnostic_at (codes "m") (chunk document 2 5) 1 2)
    ≡ diagnostic_at (codes "m") document 3 4
unfolding byte_offset_to_line_col
move-diagnostic_at_example =
    move-diagnostic_at document 2 5 1 2 (omega arith) (omega arith) (omega arith) document-IsAscii
      (codes "m") refl

-- A diagnostic that starts behind the first semicolon and ends on the second line.
