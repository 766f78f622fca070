-- ===== src/Tests/Xml.antt =====
-- `<T>ok</T>` in a message, and an empty element.
use client_shared_lib.Base.{ℕ, ◌≡◌, refl, true, some, List, [], ◌∷◌, ◌++◌, arith, length}
use client_shared_lib.Xml.{starts_with, parse_xml_attribute}
use client_shared_lib.Xml.Bounds.{Located, parse_xml_attribute-Located}
use client_shared_lib.Xml.RoundTrip.{parse_xml_attribute-element}

abbrev open_tag : List ℕ
open_tag = b'<' ∷ b'T' ∷ b'>' ∷ []

abbrev close_tag : List ℕ
close_tag = b'<' ∷ b'/' ∷ b'T' ∷ b'>' ∷ []

abbrev before : List ℕ
before = b'<' ∷ b'M' ∷ b'>' ∷ []

abbrev after : List ℕ
after = b'!' ∷ []

abbrev tagged : List ℕ
tagged = before ++ (open_tag ++ ((b'o' ∷ b'k' ∷ []) ++ (close_tag ++ after)))

parse_xml_attribute-element_example :
    parse_xml_attribute (some tagged) (length tagged) open_tag close_tag
    ≡ record { ret = true; s = some 6; len = 2 }
unfolding starts_with
parse_xml_attribute-element_example =
    parse_xml_attribute-element open_tag close_tag after b'o' (b'k' ∷ []) before refl (ground arith)
      (ground arith) refl (omega arith)

parse_xml_attribute-Located_example :
    Located tagged 13 open_tag close_tag (parse_xml_attribute (some tagged) 13 open_tag close_tag)
parse_xml_attribute-Located_example = parse_xml_attribute-Located tagged 13 open_tag close_tag
