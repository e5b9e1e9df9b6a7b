-- ===== src/Errors/Exceptions.antt =====
-- Exceptions and their text (include/server/errors/exceptions.h, include/server/source_location.h,
-- source/server/filesystem/exceptions.cpp, source/server/errors/system_error.cpp,
-- source/server/errors/fatal.cpp, source/server/stack_trace.cpp). How a stream writes numbers is a
-- parameter.
use kernel_udp_tcp.Prelude.{
  ℕ, ◌==◌, Option, none, some, List, [], ◌∷◌, ◌++◌, Text, bytes_of, if◌then◌else◌, ltb, ◌^◌,
}

-- SourceLocation: a filename, which is none for nullptr, and an int by its 32-bit pattern.
pub record SourceLocation : Type 0 where
  pub filename : Option Text
  pub line : ℕ

abbrev nowhere : SourceLocation
nowhere = record { filename = none; line = 0 }

-- std::endl
abbrev endl : Text
endl = 10 ∷ []

unfoldable location_text : (ℕ → Text) → SourceLocation → Text
location_text digits l = elim (l.filename) [
  | none ↦ []
  | some file ↦ if l.line == 0 then [] else file ++ bytes_of ":" ++ digits l.line
]

-- strerror_r: a null pointer, a pointer to the buffer, which it has filled, or a pointer to a string
-- of its own, with the buffer as it was.
pub data Described : Type 0 where
  null_pointer : Described
  in_buffer elsewhere : Text → Described

-- SystemError::Description, where `garbage` is the text that the uninitialised buffer holds.
unfoldable pub description : (ℕ → Text) → (ℕ → Described) → Text → ℕ → Text
description digits strerror garbage error = elim (strerror error) [
  | null_pointer ↦
      bytes_of "Cannot convert the given system error code to the system message - " ++ digits error
  | in_buffer t ↦ t
  | elsewhere t ↦ garbage
]

-- The classes of exceptions: those whose string() is that of Exception, and SystemException with
-- its fields.
pub data Kind : Type 0 where
  plain : Kind
  system : (system_error : ℕ) (system_message : Text) → Kind

pub record Exception : Type 0 where
  pub cache : Text
  pub message : Text
  pub location : SourceLocation
  pub kind : Kind

unfoldable pub exception : Text → Exception
exception message = record { cache = []; message = message; location = nowhere; kind = plain }

-- SystemException(message, error)
unfoldable system_exception : (ℕ → Text) → (ℕ → Described) → Text → Text → ℕ → Exception
unfolding description exception
system_exception digits strerror garbage message error = record (exception message) {
  kind = system error (description digits strerror garbage error);
}

-- operator+ of a location and an exception.
unfoldable pub at : SourceLocation → Exception → Exception
at location e = record e { location = location }

location_line : Text → Text
location_line [] = []
location_line (c ∷ rest) = bytes_of "Source location: " ++ (c ∷ rest) ++ endl

-- What the two overrides of string() write to their streams.
unfoldable pub written : (ℕ → Text) → Exception → Text
unfolding location_line location_text
written digits e = elim (e.kind) [
  | plain ↦
      bytes_of "Exception: " ++ e.message ++ endl ++ location_line (location_text digits e.location)
  | system error message ↦
      bytes_of "System exception: "
      ++ e.message
      ++ endl
      ++ bytes_of "System error: "
      ++ digits error
      ++ endl
      ++ bytes_of "System message: "
      ++ message
      ++ endl
      ++ location_line (location_text digits e.location)
]

-- string(), and what() where the memory does not run out: they fill the cache and return it.
unfoldable pub exception_string : (ℕ → Text) → Exception → Text × Exception
unfolding written
exception_string digits e = elim (e.cache) [
  | [] ↦ (written digits e, record e { cache = written digits e })
  | c ∷ rest ↦ (c ∷ rest, e)
]

-- fatal() writes to std::cerr, and aborts.
unfoldable fatal_text :
    (ℕ → Text) → (ℕ → Described) → Text → SourceLocation → Text → Text → ℕ → Text
unfolding location_text description
fatal_text digits strerror garbage location trace message error =
    bytes_of "Fatal error: "
    ++ message
    ++ endl
    ++ bytes_of "System error: "
    ++ digits error
    ++ endl
    ++ bytes_of "System message: "
    ++ description digits strerror garbage error
    ++ endl
    ++ bytes_of "Source location: "
    ++ location_text digits location
    ++ endl
    ++ bytes_of "Stack trace: "
    ++ endl
    ++ trace
    ++ endl

-- StackTrace::Frame; the line is an int by its 32-bit pattern.
pub record Frame : Type 0 where
  pub address : ℕ
  pub module_name : Text
  pub function : Text
  pub file : Text
  pub line : ℕ

or_else : Text → Text → Text
or_else unknown [] = unknown
or_else unknown (c ∷ rest) = c ∷ rest

-- A frame, with the stream's hexadecimal of an address as sixteen digits.
unfoldable frame_text : (ℕ → Text) → (ℕ → Text) → Frame → Text
unfolding or_else
frame_text digits hex f =
    bytes_of "0x"
    ++ hex f.address
    ++ bytes_of ": "
    ++ or_else (bytes_of "<unknown>") f.module_name
    ++ bytes_of "!"
    ++ or_else (bytes_of "??") f.function
    ++ bytes_of " "
    ++ f.file
    ++ (if f.line == 0
        then []
        else if ltb f.line (2 ^ 31)
        then bytes_of "(" ++ digits f.line ++ bytes_of ")"
        else [])

unfoldable trace_text : (ℕ → Text) → (ℕ → Text) → List Frame → Text
unfolding frame_text
trace_text digits hex [] = []
trace_text digits hex (f ∷ rest) = frame_text digits hex f ++ endl ++ trace_text digits hex rest
