-- ===== src/Print.antt =====
-- kernel/printf.c, user/printf.c and `atoi` of user/ulib.c. What is printed is a list of bytes; a
-- C string is the list of the bytes before its null. The variable arguments are a list: words of 64
-- bits and strings.
pub mod Digits
pub mod Kernel
pub mod User
pub mod Decimal
pub mod Agree
pub mod Bounds
mod Examples
